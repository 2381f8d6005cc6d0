-- ===== src/Fact/Store/Ids.antt =====
-- fact/store.py: the id that the store allocates, and what a stamp and a pointer leave alone.
use persistence_os.Base.{true, none, List, [], ◌∷◌, map, ◌≡◌, refl, arith, All}
use persistence_os.Fact.Datom.{TxId, placeholder, tx, tx_suc, tx_max, tx_ltb, Datom}
use persistence_os.Fact.Store.{max_from, max_txid, next_tx, mark, mark_invalidated}

-- A datom without its pointer: what the log promises never to change.
abbrev pub content : {V : Type 0} → Datom V → Datom V
content d = record d { invalidated_by = none }

ltb-suc : (a : TxId) → tx_ltb a (tx_suc a) ≡ true
ltb-suc placeholder = refl
ltb-suc (tx n) = ground arith

ltb-suc-max_right : (a b : TxId) → tx_ltb b (tx_suc (tx_max a b)) ≡ true
ltb-suc-max_right placeholder b = ltb-suc b
ltb-suc-max_right (tx m) placeholder = refl
ltb-suc-max_right (tx m) (tx n) = ground arith

ltb-suc-max : (t a b : TxId) → tx_ltb t (tx_suc a) ≡ true → tx_ltb t (tx_suc (tx_max a b)) ≡ true
ltb-suc-max placeholder placeholder placeholder h = refl
ltb-suc-max placeholder placeholder (tx n) h = refl
ltb-suc-max placeholder (tx m) placeholder h = refl
ltb-suc-max placeholder (tx m) (tx n) h = ground arith
ltb-suc-max (tx l) placeholder placeholder h = h
ltb-suc-max (tx l) placeholder (tx n) h = ground arith
ltb-suc-max (tx l) (tx m) placeholder h = h
ltb-suc-max (tx l) (tx m) (tx n) h = ground arith

module _ {V : Type 0} where
  -- every id at most the maximum so far is below its successor
  below_max :
      (t u : TxId) (ds : List (Datom V))
      → tx_ltb t (tx_suc u) ≡ true
      → tx_ltb t (tx_suc (max_from u ds)) ≡ true
  unfolding max_from
  below_max t u [] h = h
  below_max t u (d ∷ ds) h = below_max t (tx_max u d.txid) ds (ltb-suc-max t u d.txid h)

  max_from-above :
      (u : TxId) (ds : List (Datom V)) → All (λ d. tx_ltb d.txid (tx_suc (max_from u ds)) ≡ true) ds
  unfolding max_from
  max_from-above u [] = tt
  max_from-above u (d ∷ ds) = (
    below_max d.txid (tx_max u d.txid) ds (ltb-suc-max_right u d.txid),
    max_from-above (tx_max u d.txid) ds,
  )

  -- The next id is greater than every id of the log.
  pub next_tx-fresh : (log : List (Datom V)) → All (λ d. tx_ltb d.txid (next_tx log) ≡ true) log
  unfolding next_tx max_txid
  next_tx-fresh [] = tt
  next_tx-fresh (d ∷ ds) = (below_max d.txid d.txid ds (ltb-suc d.txid), max_from-above d.txid ds)

  pub content-mark : (old new : TxId) (d : Datom V) → content (mark old new d) ≡ content d
  unfolding mark
  content-mark old new d = ground arith

  pub map-content-mark_invalidated :
      (old new : TxId) (log : List (Datom V))
      → map content (mark_invalidated old new log) ≡ map content log
  unfolding mark_invalidated
  map-content-mark_invalidated old new [] = refl
  map-content-mark_invalidated old new (d ∷ ds) =
      cc (content-mark old new d, map-content-mark_invalidated old new ds)
