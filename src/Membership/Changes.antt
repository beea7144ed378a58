-- ===== src/Membership/Changes.antt =====
-- GroupMember's tables: what a member knows, and the changes that do not lower it.
use distsys_course_work.Prelude.{
  ℕ, ◌≤◌, ◌≡◌, refl, String, true, false, ◌&&◌, none, some, List, text_eq, if◌then◌else◌, ◌∙◌,
  subst, arith, Bool-cases, inl, inr,
}
use distsys_course_work.Prelude.Dict
use distsys_course_work.Membership.Tables.{Active, Suspect, ℤ, abs, GroupMember}

-- The version of an id that a member knows: 0 for an id that is in neither table.
unfoldable pub known_version : String → GroupMember → ℕ
known_version id self = elim (Dict.lookup id self.active) [
  | some version ↦ version
  | none ↦ elim (Dict.lookup id self.suspect) [ some version ↦ abs version | none ↦ 0 ]
]

-- The member is in its own table of active members, and nobody is in both tables.
pub record IsMember (self : GroupMember) : Type 0 where
  pub in_active : Dict.has self.id self.active ≡ true
  pub disjoint : (id : String) → (Dict.has id self.active && Dict.has id self.suspect) ≡ false

-- A step of the merge: it keeps the member's place in its table, and no known version falls.
pub record Grows (self self' : GroupMember) : Type 0 where
  pub member : IsMember self'
  pub same_id : self'.id ≡ self.id
  pub grows : (id : String) → known_version id self ≤ known_version id self'

pub Grows-refl : (self : GroupMember) → IsMember self → Grows self self
Grows-refl self m = record { member = m; same_id = refl; grows = λ id. omega arith }

pub Grows-trans : (a b c : GroupMember) → Grows a b → Grows b c → Grows a c
Grows-trans a b c ab bc = record {
  member = bc.member;
  same_id = bc.same_id ∙ ab.same_id;
  grows = λ id. omega (arith, ab.grows id, bc.grows id);
}

abbrev pub changed : GroupMember → Active → Suspect → GroupMember
changed self active suspect = record self { active = active; suspect = suspect }

-- A change of the tables at one id that keeps the others.
module _ (self : GroupMember) (active : Active) (suspect : Suspect) (id : String)
    (other_active : (j : String)
      → text_eq.same id j ≡ false
      → Dict.lookup j active ≡ Dict.lookup j self.active)
    (other_suspect : (j : String)
      → text_eq.same id j ≡ false
      → Dict.lookup j suspect ≡ Dict.lookup j self.suspect)
    (m : IsMember self) where
  changed-Grows :
      known_version id self ≤ known_version id (changed self active suspect)
      → (Dict.has id active && Dict.has id suspect) ≡ false
      → Dict.has self.id active ≡ true
      → Grows self (changed self active suspect)
  unfolding known_version
  changed-Grows more apart own = record {
    member = record {
      in_active = own;
      disjoint = λ j. elim (Bool-cases (text_eq.same id j)) [
        | inl same ↦
            let here : id ≡ j = (text_eq.same_iff id j).0 same in
            subst (λ k. (Dict.has k active && Dict.has k suspect) ≡ false) here apart
        | inr other ↦ ground (
          arith,
          Dict.has-lookup j active,
          Dict.has-lookup j self.active,
          Dict.has-lookup j suspect,
          Dict.has-lookup j self.suspect,
          other_active j other,
          other_suspect j other,
          m.disjoint j,
        )
      ];
    };
    same_id = refl;
    grows = λ j. elim (Bool-cases (text_eq.same id j)) [
      | inl same ↦
          let here : id ≡ j = (text_eq.same_iff id j).0 same in
          subst (λ k. known_version k self ≤ known_version k (changed self active suspect)) here
            more
      | inr other ↦ ground (arith, other_active j other, other_suspect j other)
    ];
  }

-- The four changes that the merge makes.
module _ (self : GroupMember) (id : String) (m : IsMember self) where
  insert_other :
      {V : Type 0} (v : V) (d : List (String × V)) (j : String)
      → text_eq.same id j ≡ false
      → Dict.lookup j (Dict.insert id v d) ≡ Dict.lookup j d
  insert_other v d j other = Dict.lookup-insert id j v d ∙ rw (other, if◌then◌else◌) refl

  remove_other :
      {V : Type 0} (d : List (String × V)) (j : String)
      → text_eq.same id j ≡ false
      → Dict.lookup j (Dict.remove id d) ≡ Dict.lookup j d
  remove_other d j other = Dict.lookup-remove id j d ∙ rw (other, if◌then◌else◌) refl

  pub to_suspect-Grows :
      (version : ℤ)
      → known_version id self ≤ abs version
      → text_eq.same id self.id ≡ false
      → Grows self (changed self (Dict.remove id self.active) (Dict.insert id version self.suspect))
  unfolding known_version
  to_suspect-Grows version more other =
      changed-Grows self _ _ id (remove_other self.active) (insert_other version self.suspect) m
        (ground (
          arith,
          more,
          Dict.lookup-remove id id self.active,
          Dict.lookup-insert id id version self.suspect,
          text_eq.same_iff id id,
        ))
        (ground (arith, Dict.has-remove id id self.active, text_eq.same_iff id id))
        (ground (arith, Dict.has-remove id self.id self.active, other, m.in_active))

  pub to_active-Grows :
      (version : ℕ)
      → known_version id self ≤ version
      → Grows self (changed self (Dict.insert id version self.active) (Dict.remove id self.suspect))
  unfolding known_version
  to_active-Grows version more =
      changed-Grows self _ _ id (insert_other version self.active) (remove_other self.suspect) m
        (ground (arith, more, Dict.lookup-insert id id version self.active, text_eq.same_iff id id))
        (ground (arith, Dict.has-remove id id self.suspect, text_eq.same_iff id id))
        (ground (arith, Dict.has-insert id self.id version self.active, m.in_active))

  pub suspect-Grows :
      (version : ℤ)
      → known_version id self ≤ abs version
      → Dict.lookup id self.active ≡ none
      → Grows self (changed self self.active (Dict.insert id version self.suspect))
  unfolding known_version
  suspect-Grows version more gone =
      changed-Grows self _ _ id (λ j other. refl) (insert_other version self.suspect) m
        (ground (
          arith,
          more,
          gone,
          Dict.lookup-insert id id version self.suspect,
          text_eq.same_iff id id,
        ))
        (ground (arith, gone, Dict.has-lookup id self.active)) m.in_active

  pub active-Grows :
      (version : ℕ)
      → known_version id self ≤ version
      → Dict.lookup id self.suspect ≡ none
      → Grows self (changed self (Dict.insert id version self.active) self.suspect)
  unfolding known_version
  active-Grows version more gone =
      changed-Grows self _ _ id (insert_other version self.active) (λ j other. refl) m
        (ground (arith, more, Dict.lookup-insert id id version self.active, text_eq.same_iff id id))
        (ground (arith, gone, Dict.has-lookup id self.suspect))
        (ground (arith, Dict.has-insert id self.id version self.active, m.in_active))
