-- ===== src/Guarantees/ExactlyOnce/Arrival.antt =====
-- The receiver's whole callback: what it delivers, remembers and answers.
use mathlib.Core.List.{append-nil, map-append}
use native.Mathlib.Nat.{le_refl}
use Prim.Native.String.{count}
use distsys_course_work.Prelude.{
  ℕ, ◌+◌, ◌≤◌, ◌<◌, ◌≡◌, refl, String, Bool, true, false, not, ◌&&◌, ◌||◌, some, List, [], ◌∷◌,
  ◌++◌, inl, inr, arith, ltb, leb, nat_eq, Bool-cases, get_elem?, length, length-append,
  lt_of_get_elem?, ◌∙◌, sym,
}
use distsys_course_work.Prelude.HashSet
use distsys_course_work.Runtime.{Message, Context, fresh, ok, name_limit}
use distsys_course_work.Runtime.Loop.{while_ok}
use distsys_course_work.Guarantees.{Data, Ack}
use distsys_course_work.Guarantees.Log.{
  texts, IsDistinct, IsDistinct-append_end, Told, Told-append_end, Told-submit,
}
use distsys_course_work.Guarantees.Window.Receivers.{Answer}
use distsys_course_work.Guarantees.ExactlyOnce.{
  Receiver, bound_is_stored, move_bound, move_bounds, deliver_new, on_message,
}

-- The orders that the receiver has had.
abbrev pub seen : Receiver → ℕ → Bool
seen r k = ltb k r.order_lower_bound || HashSet.contains k r.order_store

-- Where the loop stands, from `r0`: it changes where the bound is, and nothing that was seen.
record Moving (r0 r : Receiver) : Type 0 where
  grows : r0.order_lower_bound ≤ r.order_lower_bound
  same : (k : ℕ) → seen r k ≡ seen r0 k
  kept : (k : ℕ) → HashSet.contains k r.order_store ≡ true → r.order_lower_bound ≤ k
  fewer :
      (k : ℕ) → HashSet.contains k r.order_store ≡ true → HashSet.contains k r0.order_store ≡ true

move_bound-Moving :
    (r0 r : Receiver)
    → Moving r0 r
    → bound_is_stored r ≡ true
    → (r' : Receiver) × (move_bound r ≡ ok r')
      × Moving r0 r'
      × (length r'.order_store < length r.order_store)
unfolding move_bound
move_bound-Moving r0 r m more = (
  _,
  refl,
  record {
    grows = ground (arith, m.grows);
    same =
        λ k. ground (arith, m.same k, HashSet.contains-discard r.order_lower_bound k r.order_store);
    kept = λ k e.
        ground (arith, m.kept k, HashSet.contains-discard r.order_lower_bound k r.order_store);
    fewer = λ k e.
        ground (arith, m.fewer k, HashSet.contains-discard r.order_lower_bound k r.order_store);
  },
  HashSet.length-discard-lt r.order_lower_bound r.order_store more,
)

-- With the size of the set as fuel the loop ends where the bound is not in the set.
move_bounds-Moving :
    (r : Receiver)
    → ((k : ℕ) → HashSet.contains k r.order_store ≡ true → r.order_lower_bound ≤ k)
    → (r' : Receiver) × (move_bounds r ≡ ok r') × Moving r r' × (bound_is_stored r' ≡ false)
unfolding move_bounds
move_bounds-Moving r kept =
    while_ok (Moving r) (λ q. length q.order_store) bound_is_stored move_bound (move_bound-Moving r)
      (length r.order_store) r (le_refl _)
      (record { grows = le_refl _; same = λ k. refl; kept = kept; fewer = λ k e. e })

-- Between two callbacks: the user has been told each order that was seen once, and what the set
-- holds lies in the window beyond the bound.
pub record Held {Text : Type 0} (limit : ℕ) (inputs : List Text) (delivered : List (Message Text))
    (r : Receiver) : Type 0 where
  pub orders : List ℕ
  pub distinct : IsDistinct orders
  pub told : Told inputs orders (texts delivered)
  pub exactly : (k : ℕ) → HashSet.contains k orders ≡ seen r k
  pub kept :
      (k : ℕ)
      → HashSet.contains k r.order_store ≡ true
      → (r.order_lower_bound < k) × (k ≤ r.order_lower_bound + limit)
  pub known : (k : ℕ) → seen r k ≡ true → k < length inputs

module _ {Text : Type 0} (limit : ℕ) (inputs : List Text) (delivered : List (Message Text))
    (r : Receiver) (h : Held limit inputs delivered r) where
  pub Held-stops : seen r r.order_lower_bound ≡ false
  Held-stops = ground (arith, h.kept r.order_lower_bound)

  pub Held-submit : (body : Text) → Held limit (inputs ++ body ∷ []) delivered r
  Held-submit body = record {
    orders = h.orders;
    distinct = h.distinct;
    told = Told-submit inputs h.orders (texts delivered) (body ∷ []) h.told;
    exactly = h.exactly;
    kept = h.kept;
    known = λ k e. omega (arith, h.known k e, length-append inputs (body ∷ []));
  }

  module _ (now order : ℕ) (text : Text) (type from : String)
      (at : get_elem? inputs order ≡ some text) (near : order ≤ r.order_lower_bound + limit)
      (short : count type ≤ name_limit) where
    abbrev msg : Message (Data Text)
    msg = record { type = type; body = record { order = order; text = text } }

    -- After the first branch: as `Held`, but the bound itself may be in the set.
    record Delivered (s : Receiver × Context Ack Text ℕ) : Type 0 where
      orders : List ℕ
      distinct : IsDistinct orders
      told : Told inputs orders (texts (delivered ++ s.1.sent_local))
      exactly : (k : ℕ) → HashSet.contains k orders ≡ seen s.0 k
      kept :
          (k : ℕ)
          → HashSet.contains k s.0.order_store ≡ true
          → (s.0.order_lower_bound ≤ k) × (k ≤ r.order_lower_bound + limit)
      known : (k : ℕ) → seen s.0 k ≡ true → k < length inputs
      bound : s.0.order_lower_bound ≡ r.order_lower_bound
      keeps : (k : ℕ) → seen r k ≡ true → seen s.0 k ≡ true
      had : seen s.0 order ≡ true
      silent : s.1.sent ≡ []

    deliver_new-Delivered :
        (s : Receiver × Context Ack Text ℕ) × (deliver_new r msg (fresh now) ≡ ok s) × Delivered s
    unfolding deliver_new
    deliver_new-Delivered =
        elim (Bool-cases
          (leb r.order_lower_bound order && not (HashSet.contains order r.order_store))) [
            | inl new ↦ (
              (
                record r { order_store = HashSet.add order r.order_store },
                record (fresh now) { sent_local = record { type = type; body = text } ∷ [] },
              ),
              ground arith,
              record {
                orders = h.orders ++ order ∷ [];
                distinct =
                    IsDistinct-append_end order h.orders (ground (arith, h.exactly order))
                      h.distinct;
                told =
                    rw map-append
                      (Told-append_end inputs h.orders (texts delivered) order text h.told at);
                exactly = λ k. ground (
                  arith,
                  h.exactly k,
                  HashSet.contains-append order k h.orders,
                  HashSet.contains-add order k r.order_store,
                );
                kept = λ k e. ground (arith, h.kept k, HashSet.contains-add order k r.order_store);
                known = λ k e. ground (
                  arith,
                  h.known k,
                  lt_of_get_elem? inputs order text at,
                  HashSet.contains-add order k r.order_store,
                );
                bound = refl;
                keeps = λ k e. ground (arith, HashSet.contains-add order k r.order_store);
                had = ground (arith, HashSet.contains-add order order r.order_store);
                silent = refl;
              },
            )
            | inr old ↦ (
              (r, fresh now),
              ground arith,
              record {
                orders = h.orders;
                distinct = h.distinct;
                told = rw append-nil h.told;
                exactly = h.exactly;
                kept = λ k e. ground (arith, h.kept k e);
                known = h.known;
                bound = refl;
                keeps = λ k e. e;
                had = ground arith;
                silent = refl;
              },
            )
          ]

    -- The callback always ends well: it delivers what is new and sends one acknowledgement.
    pub on_message-Answer :
        (s : Receiver × Context Ack Text ℕ) × (on_message r msg from (fresh now) ≡ ok s)
        × Answer (λ q. q.order_lower_bound) seen (Held limit inputs) delivered r order from s
    unfolding on_message
    on_message-Answer =
        let ((r1, told), run1, d) = deliver_new-Delivered in
        let (r2, run2, m, stops) = move_bounds-Moving r1 (λ k e. (d.kept k e).0) in
        (
          (
            r2,
            record told {
              sent =
                  told.sent
                  ++ (
                    record {
                      type = "MESSAGE";
                      body = record { order = order; lower_bound = r2.order_lower_bound };
                    },
                    from,
                  )
                    ∷ [];
            },
          ),
          rw (run1, run2),
          record {
            holds = record {
              orders = d.orders;
              distinct = d.distinct;
              told = d.told;
              exactly = λ k. d.exactly k ∙ sym (m.same k);
              kept = λ k e. ground (arith, m.kept k e, m.grows, d.bound, d.kept k (m.fewer k e));
              known = λ k e. d.known k (sym (m.same k) ∙ e);
            };
            grows = omega (arith, m.grows, d.bound);
            keeps = λ k e. m.same k ∙ d.keeps k e;
            had = m.same order ∙ d.had;
            stops = ground arith;
            answered = rw d.silent;
          },
        )
