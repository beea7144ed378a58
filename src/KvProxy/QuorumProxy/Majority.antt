-- ===== src/KvProxy/QuorumProxy/Majority.antt =====
-- ReplicatingQuorumProxy.get: it answers with a content exactly when most of the nodes gave it.
use distsys_course_work.Prelude.{
  ℕ, ◌+◌, ◌*◌, ◌≤◌, ◌<◌, ◌≡◌, ◌≢◌, ◌↔◌, inl, inr, refl, sym, ap, ◌∙◌, subst, String, Bool, true,
  false, ◌&&◌, none, some, Option-cases, Bool-cases, List, [], ◌∷◌, length, nat_eq, text_eq, ◌==◌,
  if◌then◌else◌, arith,
}
use distsys_course_work.Prelude.Dict
use distsys_course_work.Runtime.{Result, ok, raise, ◌>>=◌, Result-cases, ok-injective, Error}
use distsys_course_work.KvProxy.Http.{Http, Response, Answer, answer, content, no_read_quorum}
use distsys_course_work.KvProxy.QuorumProxy.{
  count_up, find_quorum, ask_all, values_for_response, no_quorum, get,
}
use distsys_course_work.KvProxy.QuorumProxy.Counting.{
  count_of, count_of-count_up, count_up-IsDict, find_quorum-count, find_quorum-none,
}

module _ {W : Type 0} (http : Http W) (key : String) (w : W) where
  -- Whether a response is a vote for a content.
  abbrev pub is_vote : String → Result Response → ℕ
  is_vote c (raise e) = 0
  is_vote c (ok r) = if r.status_code == 200 && r.content == c then 1 else 0

  -- How many nodes answer a GET with 200 and the content.
  abbrev pub votes : String → List (String × String) → ℕ
  votes c [] = 0
  votes c ((name, url) ∷ nodes) = is_vote c (http.get url key w) + votes c nodes

  vote_ok :
      (c : String) (r : Response)
      → (r.status_code == 200) ≡ true
      → is_vote c (ok r) ≡ (if r.content == c then 1 else 0)
  vote_ok c r t = ground (arith, t)

  vote_other : (c : String) (r : Response) → (r.status_code == 200) ≡ false → is_vote c (ok r) ≡ 0
  vote_other c r t = ground (arith, t)

  votes_apart :
      (c c' : String) (nodes : List (String × String))
      → c ≢ c'
      → votes c nodes + votes c' nodes ≤ length nodes
  votes_apart c c' [] differ = omega arith
  votes_apart c c' ((name, url) ∷ nodes) differ =
      omega (arith, votes_apart c c' nodes differ, one_vote (http.get url key w))
    where
      one_vote : (r : Result Response) → is_vote c r + is_vote c' r ≤ 1
      one_vote (raise e) = omega arith
      one_vote (ok r) = ground (arith, text_eq.same_iff r.content c, text_eq.same_iff r.content c')

  module _ (json json_value : String → Result String) (nodes : List (String × String)) where
    module _ (name url : String) (rest : List (String × String)) (values : List (String × ℕ))
        (bad : List (String × String)) where
      ask_all-raises :
          (e : Error)
          → http.get url key w ≡ raise e
          → ask_all http json json_value nodes ((name, url) ∷ rest) key values bad w ≡ raise e
      unfolding ask_all
      ask_all-raises e p = rw (ask_all, p, ◌>>=◌) refl

      ask_all-vote :
          (r : Response)
          → http.get url key w ≡ ok r
          → (r.status_code == 200) ≡ true
          → ask_all http json json_value nodes ((name, url) ∷ rest) key values bad w
            ≡ ask_all http json json_value nodes rest key (count_up r.content values) bad w
      unfolding ask_all
      ask_all-vote r p t = rw (ask_all, p, ◌>>=◌, t) refl

      ask_all-other :
          (r : Response)
          → http.get url key w ≡ ok r
          → (r.status_code == 200) ≡ false
          → ask_all http json json_value nodes ((name, url) ∷ rest) key values bad w ≡ (
              json r.content >>= λ body.
              ask_all http json json_value nodes rest key values (Dict.insert name body bad) w)
      unfolding ask_all
      ask_all-other r p t = rw (ask_all, p, ◌>>=◌, t) refl

    ask_all-votes :
        (rest : List (String × String)) (values0 values : List (String × ℕ))
        (bad0 bad : List (String × String))
        → Dict.IsDict values0
        → ask_all http json json_value nodes rest key values0 bad0 w ≡ ok (values, bad)
        → ((c : String) → count_of c values ≡ votes c rest + count_of c values0)
          × Dict.IsDict values
    unfolding ask_all
    ask_all-votes [] values0 values bad0 bad dict e =
        let same : values0 ≡ values = ap (λ p. p.0) (ok-injective e) in
        (λ c. ap (count_of c) (sym same) ∙ omega arith, subst (λ d. Dict.IsDict d) same dict)
    ask_all-votes ((name, url) ∷ rest) values0 values bad0 bad dict e =
        elim (Result-cases (http.get url key w)) [
          | inr (er, p) ↦
              absurd (not_ok er (sym (ask_all-raises name url rest values0 bad0 er p) ∙ e))
          | inl (r, p) ↦ elim (Bool-cases (r.status_code == 200)) [
            | inl t ↦
                let (counts, is_dict) =
                  ask_all-votes rest (count_up r.content values0) values bad0 bad
                    (count_up-IsDict r.content values0 dict)
                    (sym (ask_all-vote name url rest values0 bad0 r p t) ∙ e) in
                (
                  λ c. omega (
                    arith,
                    counts c,
                    count_of-count_up c r.content values0,
                    ap (is_vote c) p,
                    vote_ok c r t,
                  ),
                  is_dict,
                )
            | inr t ↦ elim (Result-cases (json r.content)) [
              | inr (er, q) ↦ absurd (
                  not_ok er
                    (sym (ask_all-other name url rest values0 bad0 r p t ∙ rw (q, ◌>>=◌) refl) ∙ e))
              | inl (body, q) ↦
                  let (counts, is_dict) =
                    ask_all-votes rest values0 values (Dict.insert name body bad0) bad dict (
                      sym (ask_all-other name url rest values0 bad0 r p t ∙ rw (q, ◌>>=◌) refl)
                      ∙ e) in
                  (λ c. omega (arith, counts c, ap (is_vote c) p, vote_other c r t), is_dict)
            ]
          ]
        ]
      where
        not_ok :
            (er : Error)
            → ¬ ◌≡◌ {A = Result (List (String × ℕ) × List (String × String))}
                (raise er)
                (ok (values, bad))
        not_ok er h = cc

    no_quorum-other :
        (values : List (String × ℕ)) (bad : List (String × String)) (c : String)
        → ¬ no_quorum http json json_value nodes values bad ≡ ok (answer (content c) 200)
    unfolding no_quorum
    no_quorum-other [] bad c h = differ (ap (λ a. a.status) (ok-injective h))
      where
        differ : ¬ ◌≡◌ {A = ℕ} 500 200
        differ g = omega arith
    no_quorum-other (v ∷ values) bad c h =
        elim (Result-cases (values_for_response http json json_value nodes (v ∷ values))) [
          | inl (shown, p) ↦
              let run : no_quorum http json json_value nodes (v ∷ values) bad
                  ≡ ok (answer (no_read_quorum shown) 300) =
                rw (no_quorum, p, ◌>>=◌) refl in
              low (sym run ∙ h)
          | inr (er, p) ↦
              let run : no_quorum http json json_value nodes (v ∷ values) bad ≡ raise er =
                rw (no_quorum, p, ◌>>=◌) refl in
              high (sym run ∙ h)
        ]
      where
        low :
            {shown : List (String × ℕ)}
            → ¬ ok (answer (no_read_quorum shown) 300) ≡ ok (answer (content c) 200)
        low g = omega (arith, ap (λ a. a.status) (ok-injective g))

        high : {er : Error} → ¬ ◌≡◌ {A = Result Answer} (raise er) (ok (answer (content c) 200))
        high g = cc

    module _ (values : List (String × ℕ)) (bad : List (String × String))
        (e : ask_all http json json_value nodes nodes key [] [] w ≡ ok (values, bad)) where
      get-quorum :
          (c : String)
          → find_quorum (length nodes) values ≡ some c
          → get http json json_value nodes key w ≡ ok (answer (content c) 200)
      unfolding get
      get-quorum c q = rw (get, e, ◌>>=◌, q) refl

      get-no_quorum :
          find_quorum (length nodes) values ≡ none
          → get http json json_value nodes key w ≡ no_quorum http json json_value nodes values bad
      unfolding get
      get-no_quorum q = rw (get, e, ◌>>=◌, q) refl

      count_of-votes : (c : String) → count_of c values ≡ votes c nodes
      unfolding Dict.lookup
      count_of-votes c =
          let (counts, dict) = ask_all-votes nodes [] values [] bad tt e in omega (arith, counts c)

      find_quorum-votes :
          (c : String)
          → find_quorum (length nodes) values ≡ some c
          → length nodes < 2 * votes c nodes
      find_quorum-votes c q =
          let (_, dict) = ask_all-votes nodes [] values [] bad tt e in
          omega (arith, count_of-votes c, find_quorum-count (length nodes) values c dict q)

    pub quorum_read_iff_majority :
        (values : List (String × ℕ)) (bad : List (String × String)) (c : String)
        → ask_all http json json_value nodes nodes key [] [] w ≡ ok (values, bad)
        → (get http json json_value nodes key w ≡ ok (answer (content c) 200))
          ↔ (length nodes < 2 * votes c nodes)
    quorum_read_iff_majority values bad c e = (
      λ h. elim (Option-cases (find_quorum (length nodes) values)) [
        | inl q ↦ absurd (no_quorum-other values bad c (sym (get-no_quorum values bad e q) ∙ h))
        | inr (c', q) ↦
            subst (λ k. length nodes < 2 * votes k nodes)
              (content-injective
                (ap (λ a. a.body) (ok-injective (sym (get-quorum values bad e c' q) ∙ h))))
              (find_quorum-votes values bad e c' q)
      ],
      λ most. elim (Option-cases (find_quorum (length nodes) values)) [
        | inl q ↦ absurd (
            omega
              (arith, count_of-votes values bad e c, find_quorum-none (length nodes) values c q))
        | inr (c', q) ↦ elim (Bool-cases (c' == c)) [
          | inl same ↦
              get-quorum values bad e c' q
              ∙ ap (λ k. ok (answer (content k) 200)) ((text_eq.same_iff c' c).0 same)
          | inr differ ↦ absurd (
              omega (
                arith,
                find_quorum-votes values bad e c' q,
                votes_apart c' c nodes (λ h. differ_from ((text_eq.same_iff c' c).1 h) differ),
              ))
        ]
      ],
    )
      where
        content-injective : {k : String} → content k ≡ content c → k ≡ c
        content-injective h = cc

        differ_from : {b : Bool} → b ≡ true → ¬ b ≡ false
        differ_from p q = cc
