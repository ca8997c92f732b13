-- ===== src/Tests/Fixtures.antt =====
-- A generator and a hash to compute with, and three processors that stand for one another.
use spdz_yao.Base.{ℕ, ◌+◌, ◌*◌, ◌%◌, ◌^◌, refl, true, false, ◌==◌, xor, [], ◌∷◌}
use spdz_yao.Key.{Key, ◌⊕◌, get_signal}
use spdz_yao.Yao.Primitives.{Primitives}
use spdz_yao.Yao.GarbleWire.{GarbleWire}
use spdz_yao.Yao.EvalWire.{EvalWire}
use spdz_yao.Yao.Agreement.{Agrees}
use spdz_yao.Yao.Simulation.Lists.{nil, cons}
use spdz_yao.Yao.Simulation.Relation.{Related, GarblerProcessor, EvaluatorProcessor, PlainProcessor}

-- The generator counts what it has yielded.
abbrev pub test_primitives : Primitives
test_primitives = record {
  Prng = ℕ;
  get_doubleword = λ n. (record { hi = n * 37 + 11; lo = n * 23 + 6 }, n + 1);
  get_bit = λ n. (n % 2 == 1, n + 1);
  hash = λ k. record { hi = (k.lo * 5 + 3) % 2 ^ 64; lo = (k.hi * 7 + k.lo) % 2 ^ 64 };
}

abbrev pub test_delta : Key
test_delta = record { hi = 6; lo = 9 }

-- A wire of the value 1 with mask 1, and a wire of the value 1 with mask 0.
abbrev pub one_g : GarbleWire
one_g = record { key = record { hi = 4; lo = 2 }; mask = true }

abbrev pub one_e : EvalWire
one_e = record { external = false; key = record { hi = 4; lo = 2 } }

abbrev pub other_g : GarbleWire
other_g = record { key = record { hi = 12; lo = 6 }; mask = false }

abbrev pub other_e : EvalWire
other_e = record { external = true; key = record { hi = 10; lo = 15 } }

abbrev pub test_garbler : GarblerProcessor test_primitives
test_garbler = record {
  s = (one_g ∷ []) ∷ (other_g ∷ []) ∷ (one_g ∷ other_g ∷ []) ∷ [] ∷ [] ∷ [];
  c = 5 ∷ 0 ∷ [];
  i = 3 ∷ 4 ∷ [];
  ms = (other_g ∷ []) ∷ [];
  mc = 0 ∷ [];
  mi = 8 ∷ [];
  pc = 0;
  complexity = 0;
  out = [];
  party = record { delta = test_delta; counter = 2; prng = 5; gates = []; output_masks = [] };
}

abbrev pub test_evaluator : EvaluatorProcessor test_primitives
test_evaluator = record {
  s = (one_e ∷ []) ∷ (other_e ∷ []) ∷ (one_e ∷ other_e ∷ []) ∷ [] ∷ [] ∷ [];
  c = 1 ∷ 0 ∷ [];
  i = 3 ∷ 4 ∷ [];
  ms = (other_e ∷ []) ∷ [];
  mc = 2 ∷ [];
  mi = 8 ∷ [];
  pc = 0;
  complexity = 0;
  out = [];
  party = record { counter = 2; gates = []; output_masks = [] };
}

abbrev pub test_plain : PlainProcessor test_primitives
test_plain = record {
  s = (true ∷ []) ∷ (true ∷ []) ∷ (true ∷ true ∷ []) ∷ [] ∷ [] ∷ [];
  c = 1 ∷ 0 ∷ [];
  i = 3 ∷ 4 ∷ [];
  ms = (true ∷ []) ∷ [];
  mc = 2 ∷ [];
  mi = 8 ∷ [];
  pc = 0;
  complexity = 0;
  out = [];
  party = 5;
}

pub one : Agrees test_delta one_g one_e true
unfolding get_signal ◌⊕◌ xor
one = record { clear = refl; external = refl; label = refl }

pub other : Agrees test_delta other_g other_e true
unfolding get_signal ◌⊕◌ xor
other = record { clear = refl; external = refl; label = refl }

pub test-Related : Related test_primitives test_delta test_garbler test_evaluator test_plain
unfolding get_signal
test-Related = record {
  signal = refl;
  delta_is = refl;
  s =
      cons (cons one nil)
        (cons (cons other nil) (cons (cons one (cons other nil)) (cons nil (cons nil nil))));
  ms = cons (cons other nil) nil;
  c_size = refl;
  c = refl;
  mc_size = refl;
  mc = refl;
  i_garbler = refl;
  i_evaluator = refl;
  mi_garbler = refl;
  mi_evaluator = refl;
  pc_garbler = refl;
  pc_evaluator = refl;
  complexity_garbler = refl;
  complexity_evaluator = refl;
  out = refl;
  counter = refl;
  prng = refl;
}
