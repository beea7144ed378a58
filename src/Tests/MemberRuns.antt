-- ===== src/Tests/MemberRuns.antt =====
-- GroupMember at concrete inputs.
use distsys_course_work.Prelude.{◌<◌, ◌≤◌, ◌≡◌, refl, String, true, [], ◌∷◌, text_eq, arith}
use distsys_course_work.Prelude.Dict
use distsys_course_work.Runtime.{ok, raise, value_error, fresh, send, set_timer_once, set_once}
use distsys_course_work.Membership
use distsys_course_work.Membership.Tables.{
  Active, Suspect, pos, negsuc, GroupMember, merge, unexpected_init, merge_suspects, timer,
  TimerType, merge_suspect, merge_actives, merge_active, merge_suspected, refute, raise_version,
}
use distsys_course_work.Membership.Changes.{known_version, IsMember}
use distsys_course_work.Membership.Merge.{Knows, merge_never_forgets, merge_refutes_suspicion}

abbrev member : GroupMember
member = record { id = "a"; joined = true; active = ("a", 1) ∷ ("b", 2) ∷ []; suspect = [] }

abbrev heard_active : Active
heard_active = ("c", 1) ∷ []

abbrev heard_suspect : Suspect
heard_suspect = ("a", pos 1) ∷ ("b", negsuc 1) ∷ []

merged :
    merge heard_active heard_suspect member
    ≡ ok (record member { active = ("a", 2) ∷ ("c", 1) ∷ []; suspect = ("b", negsuc 1) ∷ [] })
unfolding merge unexpected_init merge_suspects merge_suspect merge_actives merge_active
    merge_suspected refute raise_version Dict.lookup Dict.insert Dict.remove Dict.has
merged = refl

-- The timer "ping_" of a member that is alone draws nothing.
alone_pings :
    Membership.on_timer []
      (record member { active = ("a", 1) ∷ [] })
      (timer TimerType.ping "")
      (fresh 5)
    ≡ ok (
      record member { active = ("a", 1) ∷ [] },
      record {
        time = 5;
        sent = [];
        sent_local = [];
        timer_actions = set_once (timer TimerType.ping "") 39 ∷ [];
      },
    )
unfolding Membership.on_timer Membership.on_ping_timer Membership.choose_random_active
    Membership.choose_random_suspect Membership.ping_suspect set_timer_once send
alone_pings = refl

-- The name of a timer for an id with "_" does not split in two.
underscore_raises :
    Membership.on_timer [] member (timer TimerType.join "a_b") (fresh 5) ≡ raise value_error
unfolding Membership.on_timer
underscore_raises = refl

member-IsMember : IsMember member
unfolding Dict.has
member-IsMember = record { in_active = refl; disjoint = λ id. ground arith }

merge_never_forgets_example :
    (self : GroupMember) × (merge heard_active heard_suspect member ≡ ok self)
    × IsMember self
    × ((id : String) → known_version id member ≤ known_version id self)
    × Knows heard_active self
merge_never_forgets_example = merge_never_forgets heard_active heard_suspect member member-IsMember

merge_refutes_suspicion_example :
    (self : GroupMember) × (merge heard_active heard_suspect member ≡ ok self)
    × (known_version "a" member < known_version "a" self)
unfolding Dict.has
merge_refutes_suspicion_example =
    merge_refutes_suspicion heard_active heard_suspect member member-IsMember refl
