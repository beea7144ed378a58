-- ===== src/Membership/Merge.antt =====
-- GroupMember._merge: what a member knows only grows, and it stays in its own table.
use distsys_course_work.Prelude.{
  ℕ, ◌+◌, ◌<◌, ◌≤◌, ◌≡◌, refl, String, true, false, not, ◌&&◌, none, some, [], ◌∷◌, text_eq,
  if◌then◌else◌, leb, ltb, ◌∙◌, ap, arith, All, Bool-cases, inl, inr, Option-cases,
}
use distsys_course_work.Prelude.Dict
use distsys_course_work.Runtime.{ok, ◌>>=◌}
use distsys_course_work.Membership.Tables.{
  Active, Suspect, ℤ, abs, is_positive, GroupMember, raise_version, unexpected_init, merge_suspect,
  merge_suspects, merge_suspected, merge_active, merge_actives, refute, merge,
}
use distsys_course_work.Membership.Changes.{
  known_version, IsMember, Grows, Grows-refl, Grows-trans, changed, to_suspect-Grows,
  to_active-Grows, suspect-Grows, active-Grows,
}

active_alone :
    (self : GroupMember) (id : String) (own : ℕ)
    → IsMember self
    → Dict.lookup id self.active ≡ some own
    → Dict.lookup id self.suspect ≡ none
active_alone self id own m there = elim (Option-cases (Dict.lookup id self.suspect)) [
  | inl gone ↦ gone
  | inr (known, too) ↦ absurd (
      ground (
        arith,
        m.disjoint id,
        Dict.has-lookup id self.active,
        Dict.has-lookup id self.suspect,
        there,
        too,
      ))
]

merge_suspect-Grows :
    (id : String) (version : ℤ) (self : GroupMember)
    → IsMember self
    → Grows self (merge_suspect id version self)
unfolding merge_suspect known_version
merge_suspect-Grows id version self m = elim (Option-cases (Dict.lookup id self.active)) [
  | inl gone ↦ elim (Option-cases (Dict.lookup id self.suspect)) [
    | inl unknown ↦ elim (Bool-cases (is_positive version)) [
      | inl new ↦
          rw (merge_suspect, gone, unknown, new, if◌then◌else◌)
            (suspect-Grows self id m version (ground (arith, gone, unknown)) gone)
      | inr left ↦ rw (merge_suspect, gone, unknown, left, if◌then◌else◌) (Grows-refl self m)
    ]
    | inr (known, there) ↦ elim (Bool-cases (ltb (abs known) (abs version))) [
      | inl newer ↦
          rw (merge_suspect, gone, there, newer, if◌then◌else◌)
            (suspect-Grows self id m version (ground (arith, gone, there, newer)) gone)
      | inr older ↦ rw (merge_suspect, gone, there, older, if◌then◌else◌) (Grows-refl self m)
    ]
  ]
  | inr (own, there) ↦
      let alone : Dict.lookup id self.suspect ≡ none = active_alone self id own m there in
      elim (Bool-cases (leb own (abs version) && not (text_eq.same id self.id))) [
        | inl newer ↦
            rw (merge_suspect, there, newer, if◌then◌else◌)
              (to_suspect-Grows self id m version (ground (arith, there, newer))
                (ground (arith, newer)))
        | inr older ↦ rw (merge_suspect, there, older, if◌then◌else◌, alone) (Grows-refl self m)
      ]
]

known_version-insert :
    (self : GroupMember) (id : String) (version : ℕ) (suspect : Suspect)
    → version ≤ known_version id (changed self (Dict.insert id version self.active) suspect)
unfolding known_version
known_version-insert self id version suspect =
    ground (arith, Dict.lookup-insert id id version self.active, text_eq.same_iff id id)

-- The member knows at least this version of the id.
abbrev Learns : String → ℕ → GroupMember → GroupMember → Type 0
Learns id version self self' = Grows self self' × (version ≤ known_version id self')

merge_suspected-Learns :
    (id : String) (version : ℕ) (self : GroupMember)
    → IsMember self
    → Dict.lookup id self.active ≡ none
    → Learns id version self (merge_suspected id version self)
unfolding merge_suspected known_version
merge_suspected-Learns id version self m gone =
    let absent : Dict.has id self.active ≡ false =
      ground (arith, gone, Dict.has-lookup id self.active) in
    elim (Option-cases (Dict.lookup id self.suspect)) [
      | inl unknown ↦
          rw (merge_suspected, unknown, absent, if◌then◌else◌)
            (
              active-Grows self id m version (ground (arith, gone, unknown)) unknown,
              known_version-insert self id version self.suspect,
            )
      | inr (known, there) ↦ elim (Bool-cases (ltb (abs known) version)) [
        | inl newer ↦
            rw (merge_suspected, there, newer, if◌then◌else◌)
              (
                to_active-Grows self id m version (ground (arith, gone, there, newer)),
                known_version-insert self id version (Dict.remove id self.suspect),
              )
        | inr older ↦
            rw (merge_suspected, there, older, if◌then◌else◌)
              (Grows-refl self m, ground (arith, gone, there, older))
      ]
    ]

merge_active-Learns :
    (id : String) (version : ℕ) (self : GroupMember)
    → IsMember self
    → Learns id version self (merge_active id version self)
unfolding merge_active merge_suspected known_version
merge_active-Learns id version self m = elim (Option-cases (Dict.lookup id self.active)) [
  | inl gone ↦ rw (merge_active, gone) (merge_suspected-Learns id version self m gone)
  | inr (own, there) ↦
      let alone = active_alone self id own m there in
      let present : Dict.has id self.active ≡ true =
        ground (arith, there, Dict.has-lookup id self.active) in
      elim (Bool-cases (ltb own version)) [
        | inl newer ↦
            rw (merge_active, there, newer, if◌then◌else◌)
              (
                active-Grows self id m version (ground (arith, there, newer)) alone,
                known_version-insert self id version self.suspect,
              )
        | inr older ↦
            rw (merge_active, there, older, if◌then◌else◌, merge_suspected, alone, present)
              (Grows-refl self m, ground (arith, there, older))
      ]
]

merge_suspects-Grows :
    (suspect : Suspect) (self : GroupMember)
    → IsMember self
    → Grows self (merge_suspects suspect self)
unfolding merge_suspects
merge_suspects-Grows [] self m = Grows-refl self m
merge_suspects-Grows ((id, version) ∷ suspect) self m =
    let step = merge_suspect-Grows id version self m in
    Grows-trans self _ _ step (merge_suspects-Grows suspect _ step.member)

-- What the member has learned of each of these members.
abbrev pub Knows : Active → GroupMember → Type 0
Knows active self = All (λ e. e.1 ≤ known_version e.0 self) active

merge_actives-Learns :
    (active : Active) (self : GroupMember)
    → IsMember self
    → Grows self (merge_actives active self) × Knows active (merge_actives active self)
unfolding merge_actives
merge_actives-Learns [] self m = (Grows-refl self m, tt)
merge_actives-Learns ((id, version) ∷ active) self m =
    let (step, learned) = merge_active-Learns id version self m in
    let (rest, knows) = merge_actives-Learns active (merge_active id version self) step.member in
    (Grows-trans self _ _ step rest, (omega (arith, learned, rest.grows id), knows))

-- A member that finds itself among the suspects raises its version by one.
refute-Grows :
    (suspect : Suspect) (self : GroupMember)
    → IsMember self
    → (self' : GroupMember) × (refute suspect self ≡ ok self')
      × Grows self self'
      × ((if Dict.has self.id suspect then 1 else 0) + known_version self.id self
          ≤ known_version self.id self')
unfolding refute raise_version known_version
refute-Grows suspect self m = elim (Option-cases (Dict.lookup self.id self.active)) [
  | inl gone ↦ absurd (ground (arith, gone, Dict.has-lookup self.id self.active, m.in_active))
  | inr (own, there) ↦
      let alone = active_alone self self.id own m there in
      elim (Bool-cases (Dict.has self.id suspect)) [
        | inr trusted ↦
            (self, rw (refute, trusted) refl, Grows-refl self m, ground (arith, trusted))
        | inl suspected ↦ (
          changed self (Dict.insert self.id (own + 1) self.active) self.suspect,
          rw (refute, suspected, raise_version, there, ◌>>=◌) refl,
          active-Grows self self.id m (own + 1) (ground (arith, there)) alone,
          rw suspected (
              ground (
                arith,
                there,
                Dict.lookup-insert self.id self.id (own + 1) self.active,
                text_eq.same_iff self.id self.id,
              )),
        )
      ]
]

initialised : (self : GroupMember) → IsMember self → unexpected_init self ≡ self
unfolding unexpected_init Dict.has
initialised self m =
    elim self.active
        as (λ a.
          Dict.has self.id a ≡ true
          → unexpected_init (record self { active = a }) ≡ record self { active = a }) [
            | [] ↦ λ h. cc
            | e ∷ active ↦ λ h. refl
          ]
      m.in_active

merge-Grows :
    (active : Active) (suspect : Suspect) (self : GroupMember)
    → IsMember self
    → (self' : GroupMember) × (merge active suspect self ≡ ok self')
      × Grows self self'
      × Knows active self'
      × ((if Dict.has self.id suspect then 1 else 0) + known_version self.id self
          ≤ known_version self.id self')
unfolding merge
merge-Grows active suspect self m =
    let (self1, run, g1, raised) = refute-Grows suspect self m in
    let g2 = merge_suspects-Grows suspect self1 g1.member in
    let (g3, knows) = merge_actives-Learns active (merge_suspects suspect self1) g2.member in
    (
      merge_actives active (merge_suspects suspect self1),
      ap (λ s. refute suspect s >>= λ s'. ok (merge_actives active (merge_suspects suspect s')))
            (initialised self m)
          ∙ rw (run, ◌>>=◌) refl,
      Grows-trans self _ _ (Grows-trans self _ _ g1 g2) g3,
      knows,
      omega (arith, raised, g2.grows self.id, g3.grows self.id),
    )

-- A merge at a member that is in its own table, where nobody is in both tables, raises nothing and
-- keeps this. No version that it knows falls, and it then knows at least the versions of all members
-- that the message has as active.
pub merge_never_forgets :
    (active : Active) (suspect : Suspect) (self : GroupMember)
    → IsMember self
    → (self' : GroupMember) × (merge active suspect self ≡ ok self')
      × IsMember self'
      × ((id : String) → known_version id self ≤ known_version id self')
      × Knows active self'
merge_never_forgets active suspect self m =
    let (self', run, g, knows, _) = merge-Grows active suspect self m in
    (self', run, g.member, g.grows, knows)

-- A member that is in its own table, where nobody is in both tables, and that finds itself among the
-- suspects of a message then has a higher version of itself.
pub merge_refutes_suspicion :
    (active : Active) (suspect : Suspect) (self : GroupMember)
    → IsMember self
    → Dict.has self.id suspect ≡ true
    → (self' : GroupMember) × (merge active suspect self ≡ ok self')
      × (known_version self.id self < known_version self.id self')
merge_refutes_suspicion active suspect self m suspected =
    let (self', run, _, _, raised) = merge-Grows active suspect self m in
    (self', run, ground (arith, raised, suspected))
