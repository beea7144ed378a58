-- ===== src/Guarantees/Ordered/Arrival.antt =====
-- The receiver's whole callback: what it delivers, keeps and answers.
use mathlib.Core.List.{append-nil}
use distsys_course_work.Prelude.{
  ℕ, ◌+◌, ◌≤◌, ◌<◌, ◌≡◌, refl, String, true, false, not, ◌&&◌, some, List, [], ◌∷◌, ◌++◌, inl, inr,
  arith, leb, nat_eq, Option-cases, Bool-cases, get_elem?, length, take,
}
use distsys_course_work.Prelude.Dict
use distsys_course_work.Runtime.{Message, Context, fresh, ok, send}
use distsys_course_work.Guarantees.{Ack}
use distsys_course_work.Guarantees.Window.Receivers.{Answer}
use distsys_course_work.Guarantees.Log.{texts}
use distsys_course_work.Guarantees.Ordered.{Receiver, next_is_stored, store_and_deliver, on_message}
use distsys_course_work.Guarantees.Ordered.Deliver.{seen, Delivering, deliver_ready-Delivering}

-- Between two callbacks: the user has the first `order_lower_bound` texts, in order, and what is
-- stored lies in the window beyond them.
pub record Held {Text : Type 0} (limit : ℕ) (inputs : List Text) (delivered : List (Message Text))
    (r : Receiver Text) : Type 0 where
  pub reached : r.order_lower_bound ≤ length inputs
  pub told : texts delivered ≡ take r.order_lower_bound inputs
  pub held :
      (k : ℕ) (t : Text)
      → Dict.lookup k r.message_store ≡ some t
      → (get_elem? inputs k ≡ some t)
        × (r.order_lower_bound < k)
        × (k ≤ r.order_lower_bound + limit)

pub Held-stops :
    {Text : Type 0} (limit : ℕ) (inputs : List Text) (delivered : List (Message Text))
    (r : Receiver Text)
    → Held limit inputs delivered r
    → seen r r.order_lower_bound ≡ false
Held-stops limit inputs delivered r h =
    elim (Option-cases (Dict.lookup r.order_lower_bound r.message_store)) [
      | inl gone ↦ ground (arith, Dict.has-lookup r.order_lower_bound r.message_store)
      | inr (t, e) ↦ absurd (omega (arith, h.held r.order_lower_bound t e))
    ]

record Arrived {Text : Type 0} (limit : ℕ) (inputs : List Text) (delivered : List (Message Text))
    (r : Receiver Text) (order : ℕ) (s : Receiver Text × Context Ack Text ℕ) : Type 0 where
  pub holds : Held limit inputs (delivered ++ s.1.sent_local) s.0
  pub grows : r.order_lower_bound ≤ s.0.order_lower_bound
  pub keeps : (k : ℕ) → seen r k ≡ true → seen s.0 k ≡ true
  pub had : seen s.0 order ≡ true
  pub stops : seen s.0 s.0.order_lower_bound ≡ false

module _ {Text : Type 0} (limit : ℕ) (inputs : List Text) (delivered : List (Message Text))
    (r : Receiver Text) (h : Held limit inputs delivered r) (now order : ℕ) (text : Text)
    (at : get_elem? inputs order ≡ some text) (near : order ≤ r.order_lower_bound + limit) where
  inserted : Receiver Text
  inserted = record r { message_store = Dict.insert order text r.message_store }

  inserted-Delivering :
      leb r.order_lower_bound order ≡ true
      → Delivering limit inputs delivered inserted (inserted, fresh now)
  unfolding inserted
  inserted-Delivering new = record {
    reached = h.reached;
    grows = omega arith;
    told = rw append-nil h.told;
    held = λ k t e. ground (arith, h.held k t, Dict.lookup-insert order k text r.message_store);
    keeps = λ k e. e;
    silent = refl;
  }

  abbrev Stored : Receiver Text × Context Ack Text ℕ → Type 0
  Stored s = Arrived limit inputs delivered r order s × (s.1.sent ≡ [])

  delivered_new :
      (s : Receiver Text × Context Ack Text ℕ)
      → Delivering limit inputs delivered inserted s
      → next_is_stored s ≡ false
      → Stored s
  unfolding inserted
  delivered_new s d stops = (
    record {
      holds = record {
        reached = d.reached;
        told = d.told;
        held = λ k t e. ground (arith, d.held k t e, d.grows, Dict.has-lookup k s.0.message_store);
      };
      grows = d.grows;
      keeps = λ k e. d.keeps k (ground (arith, Dict.has-insert order k text r.message_store));
      had = d.keeps order (ground (arith, Dict.has-insert order order text r.message_store));
      stops = ground arith;
    },
    d.silent,
  )

  known :
      leb r.order_lower_bound order && not (Dict.has order r.message_store) ≡ false
      → Stored (r, fresh now)
  known old = (
    record {
      holds = record { reached = h.reached; told = rw append-nil h.told; held = h.held };
      grows = omega arith;
      keeps = λ k e. e;
      had = ground arith;
      stops = Held-stops limit inputs delivered r h;
    },
    refl,
  )

  store_and_deliver-Stored :
      (s : Receiver Text × Context Ack Text ℕ) × (store_and_deliver r order text (fresh now) ≡ ok s)
      × Stored s
  unfolding store_and_deliver inserted
  store_and_deliver-Stored =
      elim (Bool-cases (leb r.order_lower_bound order && not (Dict.has order r.message_store))) [
        | inl new ↦
            let (s, run, d, stops) =
              deliver_ready-Delivering limit inputs delivered inserted (fresh now)
                (inserted-Delivering (ground arith)) in
            (s, rw new run, delivered_new s d stops)
        | inr old ↦ ((r, fresh now), rw old, known old)
      ]

  -- The callback always ends well: it delivers what it should and sends one acknowledgement.
  pub on_message-Answer :
      (type from : String)
      → (s : Receiver Text × Context Ack Text ℕ) × (on_message r
            (record { type = type; body = record { order = order; text = text } })
            from
            (fresh now)
          ≡ ok s)
        × Answer (λ q. q.order_lower_bound) seen (Held limit inputs) delivered r order from s
  unfolding on_message send
  on_message-Answer type from =
      let ((r', told), run, (a, silent)) = store_and_deliver-Stored in
      (
        (
          r',
          record told {
            sent =
                told.sent
                ++ (
                  record {
                    type = "MESSAGE";
                    body = record { order = order; lower_bound = r'.order_lower_bound };
                  },
                  from,
                )
                  ∷ [];
          },
        ),
        rw run,
        record {
          holds = a.holds;
          grows = a.grows;
          keeps = a.keeps;
          had = a.had;
          stops = a.stops;
          answered = rw silent;
        },
      )
