-- ===== src/Broadcast/Popping.antt =====
-- The last part of a round of update_deliver: the delivered messages are taken out of the buffer.
use distsys_course_work.Prelude.{
  ◌+◌, ◌≤◌, ◌≡◌, refl, ◌⊎◌, inl, inr, true, false, List, [], ◌∷◌, length, arith, All, All-map,
  Option-cases,
}
use distsys_course_work.Prelude.Dict
use distsys_course_work.Runtime.{ok}
use distsys_course_work.Broadcast.State.{MessageHash, hash_eq, hash_same_iff, pop_all}

module _ {κ} {V : Type κ} where
  -- The hashes are keys of the list, in its order.
  abbrev pub Picked : List MessageHash → List (MessageHash × V) → Type 0
  Picked hs [] = hs ≡ []
  Picked hs ((h, v) ∷ todo) =
      Picked hs todo ⊎ ((rest : List MessageHash) × (hs ≡ h ∷ rest) × Picked rest todo)

module _ {κ μ} {V : Type κ} (P : MessageHash × V → Type μ) where
  abbrev Present : List (MessageHash × V) → List (MessageHash × V) → Type 0
  Present d = All (λ e. Dict.has e.0 d ≡ true)

  Present-cons :
      (h : MessageHash) (v : V) (d todo : List (MessageHash × V))
      → Present d todo
      → Present ((h, v) ∷ d) todo
  unfolding Dict.has
  Present-cons h v d todo = All-map _ _ (λ e there. ground (arith, there)) todo

  Present-self : (d : List (MessageHash × V)) → Present d d
  unfolding Dict.has
  Present-self [] = tt
  Present-self ((h, v) ∷ d) =
      (ground (arith, hash_same_iff h h), Present-cons h v d d (Present-self d))

  Present-remove :
      (h : MessageHash) (d todo : List (MessageHash × V))
      → Dict.has h todo ≡ false
      → Present d todo
      → Present (Dict.remove h d) todo
  unfolding Dict.has
  Present-remove h d [] other there = tt
  Present-remove h d ((k, v) ∷ todo) other there = (
    ground (arith, Dict.has-remove h k d, hash_same_iff h k, hash_same_iff k h, there.0, other),
    Present-remove h d todo (ground (arith, other)) there.1,
  )

  -- What is left is smaller by what was taken out, and has the properties of the buffer.
  abbrev pub Popped : List MessageHash → List (MessageHash × V) → Type (κ ⊔ μ)
  Popped hs d =
      (d' : List (MessageHash × V)) × (pop_all hs d ≡ ok d')
      × (length d' + length hs ≤ length d)
      × Dict.IsDict d'
      × All P d'

  pop-Present :
      (todo : List (MessageHash × V)) (hs : List MessageHash) (d : List (MessageHash × V))
      → Dict.IsDict todo
      → Dict.IsDict d
      → All P d
      → Present d todo
      → Picked hs todo
      → Popped hs d
  unfolding pop_all
  pop-Present [] hs d dict_todo dict all there picked = rw picked (d, refl, omega arith, dict, all)
  pop-Present ((h, v) ∷ todo) hs d dict_todo dict all there (inl picked) =
      pop-Present todo hs d dict_todo.1 dict all there.1 picked
  pop-Present ((h, v) ∷ todo) hs d dict_todo dict all there (inr (rest, same, picked)) =
      elim (Option-cases (Dict.lookup h d)) [
        | inl gone ↦ absurd (ground (arith, Dict.has-lookup h d, there.0))
        | inr (w, found) ↦
            let (d', run, less, dict', all') =
              pop-Present todo rest (Dict.remove h d) dict_todo.1 (Dict.remove-IsDict h d dict)
                (Dict.All-remove P h d all) (Present-remove h d todo dict_todo.0 there.1) picked in
            rw same (
              d',
              rw (pop_all, there.0) run,
              omega (arith, less, Dict.length-remove-lt h d w found),
              dict',
              all',
            )
      ]

  pub pop_all-Popped :
      (hs : List MessageHash) (d : List (MessageHash × V))
      → Dict.IsDict d
      → All P d
      → Picked hs d
      → Popped hs d
  pop_all-Popped hs d dict all picked = pop-Present d hs d dict dict all (Present-self d) picked
