-- ===== src/Buffers/Bounded.antt =====
-- A bounded list as an ArrayQueue, for the tests of what uses one.
use cfw.Prelude.{ℕ, refl, List, [], length, leb}
use cfw.Buffers.{ArrayQueue, displaced, pushed, rejected, stored, rest_of, front_of}

pub record Bounded : Type 0 where
  pub items : List ℕ
  pub bound : ℕ

instance abbrev pub bounded : ArrayQueue ℕ
bounded = record {
  Queue = Bounded;
  make = λ n. record { items = []; bound = n };
  force_push = λ x q. (displaced q.bound q.items, record q { items = pushed q.bound x q.items });
  push = λ x q. (rejected q.bound x q.items, record q { items = stored q.bound x q.items });
  pop = λ q. (front_of q.items, record q { items = rest_of q.items });
  len = λ q. length q.items;
  is_empty = λ q. leb (length q.items) 0;
  capacity = λ q. q.bound;
  elements = λ q. q.items;
  make_elements = λ n. refl;
  make_capacity = λ n h. refl;
  force_push_result = λ x q. refl;
  force_push_elements = λ x q. refl;
  force_push_capacity = λ x q. refl;
  push_result = λ x q. refl;
  push_elements = λ x q. refl;
  push_capacity = λ x q. refl;
  pop_result = λ q. refl;
  pop_elements = λ q. refl;
  pop_capacity = λ q. refl;
  len_elements = λ q. refl;
}
