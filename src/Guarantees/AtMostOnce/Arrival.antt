-- ===== src/Guarantees/AtMostOnce/Arrival.antt =====
-- The receiver's whole callback: what it delivers, and what it forgets.
use mathlib.Core.List.{append-nil, map-append}
use native.Mathlib.Decide.{dec_lt}
use distsys_course_work.Prelude.{
  ℕ, zero, suc, ◌+◌, ◌-◌, ◌≤◌, ◌<◌, ◌≡◌, String, Bool, true, false, not, ◌&&◌, ◌||◌, some, List, [],
  ◌∷◌, ◌++◌, inl, inr, arith, ltb, leb, nat_eq, Bool-cases, get_elem?, subst, if◌then◌else◌,
}
use distsys_course_work.Prelude.HashSet
use distsys_course_work.Runtime.{Message, Context, fresh, ok, Result-cases}
use distsys_course_work.Guarantees.{Data, Ack}
use distsys_course_work.Guarantees.Log.{
  texts, IsDistinct, IsDistinct-append_end, Told, Told-append_end, Told-submit,
}
use distsys_course_work.Guarantees.AtMostOnce.{
  Receiver, all_stored, discard_range, prune, deliver_new, on_message,
}

-- The orders that the receiver takes for old.
abbrev pub seen : Receiver → ℕ → Bool
seen r k = ltb k r.order_lower_bound || HashSet.contains k r.order_store

contains-discard_range :
    (first n k : ℕ) (store : List ℕ)
    → HashSet.contains k (discard_range first n store)
      ≡ (if leb first k && ltb k (first + n) then false else HashSet.contains k store)
unfolding discard_range
contains-discard_range first zero k store = ground arith
contains-discard_range first (suc n) k store = ground (
  arith,
  contains-discard_range (first + 1) n k (HashSet.discard first store),
  HashSet.contains-discard first k store,
)

-- Three orders in a row after `k` were delivered.
abbrev pub ThreeLater : List ℕ → ℕ → Type 0
ThreeLater orders k =
    (j : ℕ) × (k < j)
    × (HashSet.contains j orders ≡ true)
    × (HashSet.contains (j + 1) orders ≡ true)
    × (HashSet.contains (j + 2) orders ≡ true)

-- The user has been told each of `orders` once; all of them are old for the receiver, and what is
-- old and was not told lies before three orders in a row that were.
pub record Held {Text : Type 0} (inputs : List Text) (delivered : List (Message Text))
    (r : Receiver) : Type 0 where
  pub orders : List ℕ
  pub distinct : IsDistinct orders
  pub told : Told inputs orders (texts delivered)
  pub old : (k : ℕ) → HashSet.contains k orders ≡ true → seen r k ≡ true
  pub stored : (k : ℕ) → HashSet.contains k r.order_store ≡ true → HashSet.contains k orders ≡ true
  pub above : (k : ℕ) → HashSet.contains k r.order_store ≡ true → r.order_lower_bound ≤ k
  pub skipped :
      (k : ℕ) → k < r.order_lower_bound → HashSet.contains k orders ≡ false → ThreeLater orders k

three_stored :
    (order : ℕ) (store : List ℕ)
    → all_stored 3 order store ≡ true
    → (3 ≤ order)
      × (HashSet.contains (order - 3) store ≡ true)
      × (HashSet.contains (order - 2) store ≡ true)
      × (HashSet.contains (order - 1) store ≡ true)
unfolding all_stored
three_stored order store h = ground arith

module _ {Text : Type 0} (inputs : List Text) (delivered : List (Message Text)) (r : Receiver)
    (h : Held inputs delivered r) where
  pub Held-submit : (body : Text) → Held (inputs ++ body ∷ []) delivered r
  Held-submit body = record {
    orders = h.orders;
    distinct = h.distinct;
    told = Told-submit inputs h.orders (texts delivered) (body ∷ []) h.told;
    old = h.old;
    stored = h.stored;
    above = h.above;
    skipped = h.skipped;
  }

  pruned :
      (order : ℕ)
      → (r.order_lower_bound ≤ order → HashSet.contains order h.orders ≡ true)
      → (3 ≤ order)
        × (HashSet.contains (order - 3) r.order_store ≡ true)
        × (HashSet.contains (order - 2) r.order_store ≡ true)
        × (HashSet.contains (order - 1) r.order_store ≡ true)
      → Held inputs delivered (record r {
        order_store =
            discard_range r.order_lower_bound (order + 1 - r.order_lower_bound) r.order_store;
        order_lower_bound = order + 1;
      })
  pruned order had three =
      let low = h.above (order - 1) three.3 in
      let gone = λ (k : ℕ).
        contains-discard_range r.order_lower_bound (order + 1 - r.order_lower_bound) k
          r.order_store in
      record {
        orders = h.orders;
        distinct = h.distinct;
        told = h.told;
        old = λ k e. ground (arith, h.old k e, gone k);
        stored = λ k e. ground (arith, h.stored k, gone k);
        above = λ k e. ground (arith, h.above k, gone k);
        skipped = λ k lt e. elim (dec_lt k r.order_lower_bound) [
          | yes below ↦ h.skipped k below e
          | no above ↦ (
            order - 3,
            ground (
              arith,
              h.stored (order - 3),
              h.stored (order - 2),
              h.stored (order - 1),
              had (omega arith),
            ),
            h.stored (order - 3) three.1,
            subst (λ j. HashSet.contains j h.orders ≡ true) (omega arith)
                (h.stored (order - 2) three.2),
            subst (λ j. HashSet.contains j h.orders ≡ true) (omega arith)
                (h.stored (order - 1) three.3),
          )
        ];
      }

  prune-Held :
      (order : ℕ)
      → (r.order_lower_bound ≤ order → HashSet.contains order h.orders ≡ true)
      → Held inputs delivered (prune r order)
  unfolding prune
  prune-Held order had = elim (Bool-cases (all_stored 3 order r.order_store)) [
    | inr off ↦ rw (off, prune) h
    | inl on ↦ rw (on, prune) (pruned order had (three_stored order r.order_store on))
  ]

  module _ (now order : ℕ) (text : Text) (type : String)
      (at : get_elem? inputs order ≡ some text) where
    abbrev msg : Message (Data Text)
    msg = record { type = type; body = record { order = order; text = text } }

    abbrev Known : Receiver × Context Ack Text ℕ → Type 0
    Known s =
        (v : Held inputs (delivered ++ s.1.sent_local) s.0) × (s.0.order_lower_bound ≤ order
          → HashSet.contains order v.orders ≡ true)

    told_new :
        seen r order ≡ false
        → Known (
          record r { order_store = HashSet.add order r.order_store },
          record (fresh now) { sent_local = record { type = type; body = text } ∷ [] },
        )
    told_new new = (
      record {
        orders = h.orders ++ order ∷ [];
        distinct = IsDistinct-append_end order h.orders (ground (arith, h.old order)) h.distinct;
        told =
            rw map-append (Told-append_end inputs h.orders (texts delivered) order text h.told at);
        old = λ k e. ground (
          arith,
          h.old k,
          HashSet.contains-append order k h.orders,
          HashSet.contains-add order k r.order_store,
        );
        stored = λ k e. ground (
          arith,
          h.stored k,
          HashSet.contains-append order k h.orders,
          HashSet.contains-add order k r.order_store,
        );
        above = λ k e. ground (arith, h.above k, HashSet.contains-add order k r.order_store);
        skipped = λ k lt e.
            let (j, later, one, two, three) =
              h.skipped k lt (ground (arith, HashSet.contains-append order k h.orders)) in
            (
              j,
              later,
              ground (arith, HashSet.contains-append order j h.orders),
              ground (arith, HashSet.contains-append order (j + 1) h.orders),
              ground (arith, HashSet.contains-append order (j + 2) h.orders),
            );
      },
      λ le. ground (arith, HashSet.contains-append order order h.orders),
    )

    deliver_new-Known :
        (s : Receiver × Context Ack Text ℕ) → deliver_new r msg (fresh now) ≡ ok s → Known s
    unfolding deliver_new
    deliver_new-Known s e =
        elim (Bool-cases
          (leb r.order_lower_bound order && not (HashSet.contains order r.order_store))) [
            | inl new ↦
                let did : ◌≡◌ {A = Receiver × Context Ack Text ℕ}
                    (
                      record r { order_store = HashSet.add order r.order_store },
                      record (fresh now) { sent_local = record { type = type; body = text } ∷ [] },
                    )
                    s =
                  ground arith in
                subst Known did (told_new (ground arith))
            | inr known ↦
                let did : ◌≡◌ {A = Receiver × Context Ack Text ℕ} (r, fresh now) s = ground arith in
                subst Known did (
                  record {
                    orders = h.orders;
                    distinct = h.distinct;
                    told = rw append-nil h.told;
                    old = h.old;
                    stored = h.stored;
                    above = h.above;
                    skipped = h.skipped;
                  },
                  λ le. h.stored order (ground arith),
                )
          ]

-- What is new is told and remembered; then the receiver forgets what lies behind.
pub on_message-Held :
    {Text : Type 0} (inputs : List Text) (delivered : List (Message Text)) (r : Receiver)
    (h : Held inputs delivered r) (now : ℕ) (m : Message (Data Text)) (from : String)
    → get_elem? inputs m.body.order ≡ some m.body.text
    → (s : Receiver × Context Ack Text ℕ) → on_message r m from (fresh now) ≡ ok s
    → Held inputs (delivered ++ s.1.sent_local) s.0
unfolding on_message
on_message-Held {Text} inputs delivered r h now m from at s e =
    elim (Result-cases (deliver_new r m (fresh {O = Ack} {D = Text} {T = ℕ} now))) [
      | inl ((r1, told), run) ↦
          let (v, had) =
            deliver_new-Known inputs delivered r h now m.body.order m.body.text m.type at (r1, told)
              run in
          let did : ◌≡◌ {A = Receiver × Context Ack Text ℕ} (prune r1 m.body.order, told) s =
            ground arith in
          subst
            (λ (x : Receiver × Context Ack Text ℕ). Held inputs (delivered ++ x.1.sent_local) x.0)
            did (prune-Held inputs (delivered ++ told.sent_local) r1 v m.body.order had)
      | inr (x, run) ↦ absurd (ground arith)
    ]
