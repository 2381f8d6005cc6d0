-- ===== src/Txn/Fork/Samples.antt =====
-- The theorem on `fork_impl` at a concrete input: three items, of which the second raises.
use persistence_os.Base.{◌+◌, true, List, [], ◌∷◌, ◌≡◌, refl, ok, err, none, map, String}
use persistence_os.Fact.Datom.{tx}
use persistence_os.Fact.Samples.{Value, int, str, small_python, at}
use persistence_os.Txn.Transaction.{Values, EffectIntent, begin}
use persistence_os.Txn.Fork.{
  ForkHost, ForkFn, ForkBranchResult, Choice, index, continue, stop, fork_impl, choose_among,
  run_items, run_item, validate_choose_index, pick, get_elem?, Forked,
}
use persistence_os.Txn.Fork.Choosing.{Ends, fork_impl-Ends}

abbrev values : Values Value
values = record { nil = str ""; is_immutable = λ v. true; registry = [] }

abbrev host : ForkHost Value
host = record {
  hash16 = λ v. "v";
  hash_branch = λ item state. "b";
  hash_items = λ items. "i";
  fn_hash = "f";
  choose_hash = "c";
  is_plain = λ v. true;
  try_dumps = λ v. none;
  repr = λ v. "";
}

abbrev next : ForkFn Value
next (int (tx a)) (int (tx b)) = ok (int (tx (a + b)))
next seed item = err "no number"

abbrev items : List Value
items = int (tx 2) ∷ str "x" ∷ int (tx 3) ∷ []

abbrev third : List (ForkBranchResult Value) → Choice
third bs = index 2

fork_impl-Ends_example :
    Ends values "db" host true items next third
      (int (tx 1))
      continue
      (begin (at 1) 0)
      (fork_impl values "db" host true items next third (int (tx 1)) continue (begin (at 1) 0))
fork_impl-Ends_example =
    fork_impl-Ends values "db" host true items next third (int (tx 1)) continue (begin (at 1) 0)

abbrev state_of : Forked values "db" host → Value
state_of (ok r, y) = r.chosen_state
state_of (err e, y) = str "raised"

abbrev ops_of : Forked values "db" host → List String
ops_of (r, y) = map EffectIntent.op y.effect_intent_log

chosen_state :
    state_of
      (fork_impl values "db" host true items next third (int (tx 1)) continue (begin (at 1) 0))
    ≡ int (tx 4)
unfolding fork_impl choose_among run_items run_item validate_choose_index pick get_elem?
chosen_state = refl

-- Under `stop` the raise of the callback leaves no intent, the probe included.
nothing_told :
    ops_of (fork_impl values "db" host true items next third (int (tx 1)) stop (begin (at 1) 0))
    ≡ []
unfolding fork_impl choose_among run_items run_item
nothing_told = refl
