-- ===== src/Guarantees/Ordered/Deliver.antt =====
-- The receiver's loop: it delivers what has become next, in order, and nothing else.
use mathlib.Core.List.{map-append, append_assoc}
use native.Mathlib.Nat.{le_refl}
use distsys_course_work.Prelude.{
  ℕ, ◌+◌, ◌≤◌, ◌<◌, ◌≡◌, Bool, true, false, ◌||◌, some, List, [], ◌∷◌, ◌++◌, inl, inr, arith, ltb,
  nat_eq, Option-cases, get_elem?, length, take, take-add-one, lt_of_get_elem?,
}
use distsys_course_work.Prelude.Dict
use distsys_course_work.Runtime.{Message, Context, ok}
use distsys_course_work.Runtime.Loop.{while_ok}
use distsys_course_work.Guarantees.{Ack}
use distsys_course_work.Guarantees.Log.{texts}
use distsys_course_work.Guarantees.Ordered.{Receiver, next_is_stored, deliver_next, deliver_ready}

-- The orders that the receiver has had.
abbrev pub seen : {Text : Type 0} → Receiver Text → ℕ → Bool
seen r k = ltb k r.order_lower_bound || Dict.has k r.message_store

-- Where the loop stands: `delivered` is what the user had before, `r0` the receiver at its start.
pub record Delivering {Text : Type 0} (limit : ℕ) (inputs : List Text)
    (delivered : List (Message Text)) (r0 : Receiver Text) (s : Receiver Text × Context Ack Text ℕ)
    : Type 0 where
  pub reached : s.0.order_lower_bound ≤ length inputs
  pub grows : r0.order_lower_bound ≤ s.0.order_lower_bound
  pub told : texts (delivered ++ s.1.sent_local) ≡ take s.0.order_lower_bound inputs
  pub held :
      (k : ℕ) (t : Text)
      → Dict.lookup k s.0.message_store ≡ some t
      → (get_elem? inputs k ≡ some t)
        × (s.0.order_lower_bound ≤ k)
        × (k ≤ r0.order_lower_bound + limit)
  pub keeps : (k : ℕ) → seen r0 k ≡ true → seen s.0 k ≡ true
  pub silent : s.1.sent ≡ []

module _ {Text : Type 0} (limit : ℕ) (inputs : List Text) (delivered : List (Message Text))
    (r0 : Receiver Text) where
  told_next :
      (n : ℕ) (sent : List (Message Text)) (t : Text)
      → texts (delivered ++ sent) ≡ take n inputs
      → get_elem? inputs n ≡ some t
      → texts (delivered ++ (sent ++ record { type = "MESSAGE"; body = t } ∷ []))
        ≡ take (n + 1) inputs
  told_next n sent t told at = rw (← append_assoc, map-append, told, take-add-one n inputs t at)

  deliver_next-Delivering :
      (s : Receiver Text × Context Ack Text ℕ)
      → Delivering limit inputs delivered r0 s
      → next_is_stored s ≡ true
      → (s' : Receiver Text × Context Ack Text ℕ) × (deliver_next s ≡ ok s')
        × Delivering limit inputs delivered r0 s'
        × (length s'.0.message_store < length s.0.message_store)
  unfolding deliver_next
  deliver_next-Delivering (r, ctx) d more =
      elim (Option-cases (Dict.lookup r.order_lower_bound r.message_store)) [
        | inl gone ↦ absurd (ground (arith, Dict.has-lookup r.order_lower_bound r.message_store))
        | inr (t, stored) ↦ (
          (
            record r {
              message_store = Dict.remove r.order_lower_bound r.message_store;
              order_lower_bound = r.order_lower_bound + 1;
            },
            record ctx {
              sent_local = ctx.sent_local ++ record { type = "MESSAGE"; body = t } ∷ [];
            },
          ),
          ground arith,
          record {
            reached =
                omega (arith, lt_of_get_elem? inputs r.order_lower_bound t (d.held _ t stored).0);
            grows = ground (arith, d.grows);
            told = told_next r.order_lower_bound ctx.sent_local t d.told (d.held _ t stored).0;
            held = λ k u e.
                ground
                  (arith, d.held k u, Dict.lookup-remove r.order_lower_bound k r.message_store);
            keeps = λ k e.
                ground (arith, d.keeps k e, Dict.has-remove r.order_lower_bound k r.message_store);
            silent = d.silent;
          },
          omega (arith, Dict.length-remove-lt r.order_lower_bound r.message_store t stored),
        )
      ]

  -- With the stored messages as fuel the loop raises nothing, and ends where nothing is next.
  pub deliver_ready-Delivering :
      (ctx : Context Ack Text ℕ)
      → Delivering limit inputs delivered r0 (r0, ctx)
      → (s : Receiver Text × Context Ack Text ℕ) × (deliver_ready r0 ctx ≡ ok s)
        × Delivering limit inputs delivered r0 s
        × (next_is_stored s ≡ false)
  unfolding deliver_ready
  deliver_ready-Delivering ctx d =
      while_ok (Delivering limit inputs delivered r0) (λ s. length s.0.message_store) next_is_stored
        deliver_next deliver_next-Delivering (length r0.message_store) (r0, ctx) (le_refl _) d
