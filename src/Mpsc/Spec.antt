-- ===== src/Mpsc/Spec.antt =====
-- What a queue promises: items leave in the order in which they came, and a bounded one holds at
-- most `cap` of them.
use shclog.Prelude.{
  ℕ, Bool, true, false, ltb, if◌then◌else◌, Option, none, some, List, [], ◌∷◌, ◌++◌, length,
}

pub data Op : Type 0 where
  put : Option ℕ → Op
  get : Op

pub data Reply : Type 0 where
  stored : Bool → Reply
  got : Option ℕ → Reply

-- A null pointer is never stored.
unfoldable pub push : ℕ → List ℕ → Option ℕ → List ℕ × Bool
push cap items none = (items, false)
push cap items (some v) =
    if ltb (length items) cap then (items ++ (v ∷ []), true) else (items, false)

unfoldable pub pop : List ℕ → List ℕ × Option ℕ
pop [] = ([], none)
pop (v ∷ items) = (items, some v)

unfoldable pub run : ℕ → List ℕ → List Op → List Reply
run cap items [] = []
run cap items (put v ∷ ops) = let (items', b) = push cap items v in stored b ∷ run cap items' ops
run cap items (get ∷ ops) = let (items', v) = pop items in got v ∷ run cap items' ops
