-- ===== src/Tests/ProxyRuns.antt =====
-- Three storage nodes behind the RAID3 proxy and the quorum proxy, and the theorems there.
use distsys_course_work.Prelude.{
  suc, zero, ◌<◌, ◌*◌, ◌≡◌, ◌≢◌, ◌↔◌, refl, ap, sym, subst, String, Bool, true, false, none, some,
  some-injective, List, [], ◌∷◌, length, nat_eq, text_eq, ◌==◌, if◌then◌else◌, arith,
}
use distsys_course_work.Prelude.Dict
use distsys_course_work.Runtime.{Result, ok, raise, ok-injective}
use distsys_course_work.KvProxy.Http.{Answer, answer, stored, value, content}
use distsys_course_work.KvProxy.Storage.{put_handler, get_handler}
use distsys_course_work.KvProxy.Cluster.{Nodes, cluster, cluster_post, cluster_get, cluster-Keeps}
use distsys_course_work.KvProxy.Raid3.{
  DataBlock, raid3_split, split_bytes, slices, padded, raid3_parity, parity_loop, zip_xor, rstrip,
  recover_loop, raid3_recover, raid3_join, join_bytes,
}
use distsys_course_work.KvProxy.Raid3Proxy.{
  Raid3Proxy, init, put, get, write_all, read_all, read_block, load_block,
}
use distsys_course_work.KvProxy.Raid3Proxy.ReadAfterWrite.{
  SameBut, raid3_read_after_write, raid3_read_with_one_failed,
}
use distsys_course_work.KvProxy.Raid3Proxy.Writing.{IsDistinct}
use distsys_course_work.KvProxy.Raid3.ShortSplit.{parity_is_read_as_value}
use distsys_course_work.KvProxy.QuorumProxy
use distsys_course_work.KvProxy.QuorumProxy.Majority.{votes, quorum_read_iff_majority}
use distsys_course_work.Tests.ProxyCodec.{numbers, jsonify, json_value, codec, codec-CodecLaws}

abbrev proxy : Raid3Proxy
proxy = record { nodes = ("n1", "u1") ∷ ("n2", "u2") ∷ ("n3", "u3") ∷ []; divisor = 2 }

proxy_made : init proxy.nodes ≡ ok proxy
unfolding init
proxy_made = refl

abbrev empty : Nodes
empty url = some []

-- The nodes after the PUT.
abbrev nodes_after : Result (Answer × Nodes) → Nodes
nodes_after (ok (a, w)) = w
nodes_after (raise e) = empty

unfoldable after : Nodes
unfolding put
after = nodes_after (put (cluster jsonify) codec proxy "k" "abcd" empty)

put_stored : put (cluster jsonify) codec proxy "k" "abcd" empty ≡ ok (answer stored 200, after)
unfolding after put write_all cluster_post put_handler raid3_split split_bytes slices padded
    raid3_parity parity_loop zip_xor
put_stored = refl

-- The second node cannot be reached.
abbrev without_second : Nodes
without_second url = if url == "u2" then none else after url

recovered : get (cluster jsonify) codec proxy "k" without_second ≡ ok (answer (value "abcd") 200)
unfolding after put write_all cluster_post put_handler raid3_split split_bytes slices padded
    raid3_parity parity_loop zip_xor get read_all read_block load_block cluster_get get_handler
    Dict.insert Dict.lookup recover_loop raid3_recover raid3_join join_bytes rstrip
recovered = refl

abcd_full :
    (blocks : List DataBlock)
    → raid3_split codec.encode codec.decode 2 "abcd" ≡ ok blocks
    → length blocks ≡ 2
unfolding raid3_split split_bytes slices padded
abcd_full blocks e = sym (ap length (ok-injective e))

abcd_stripped : rstrip (codec.encode "abcd") ≡ codec.encode "abcd"
unfolding rstrip
abcd_stripped = refl

apart : (a b : String) → (a == b) ≡ false → a ≢ b
apart a b differ same = both ((text_eq.same_iff a b).1 same) differ
  where
    both : {c : Bool} → c ≡ true → ¬ c ≡ false
    both p q = cc

proxy-IsDistinct : IsDistinct proxy.nodes
proxy-IsDistinct =
    ((apart "u1" "u2" refl, (apart "u1" "u3" refl, tt)), ((apart "u2" "u3" refl, tt), (tt, tt)))

raid3_read_after_write_example :
    get (cluster jsonify) codec proxy "k" after ≡ ok (answer (value "abcd") 200)
raid3_read_after_write_example =
    raid3_read_after_write (cluster jsonify) codec "k" codec-CodecLaws
      (cluster-Keeps jsonify json_value (λ text. refl) "k") proxy "abcd" empty after refl
      proxy-IsDistinct refl (omega arith) (omega arith) abcd_stripped abcd_full put_stored after
      (λ j n e. refl)

second_fails : read_block (cluster jsonify) codec "u2" "k" without_second ≡ ok none
unfolding read_block cluster_get
second_fails = refl

others_same : SameBut (cluster jsonify) codec "k" 1 after without_second proxy.nodes
unfolding cluster_get
others_same zero n differ e =
    subst (λ m. cluster_get jsonify m.1 "k" without_second ≡ cluster_get jsonify m.1 "k" after)
      (some-injective _ _ e) refl
others_same (suc zero) n differ e = absurd (omega arith)
others_same (suc (suc zero)) n differ e =
    subst (λ m. cluster_get jsonify m.1 "k" without_second ≡ cluster_get jsonify m.1 "k" after)
      (some-injective _ _ e) refl
others_same (suc (suc (suc j))) n differ e = absurd (ground arith)

raid3_read_with_one_failed_example :
    get (cluster jsonify) codec proxy "k" without_second ≡ ok (answer (value "abcd") 200)
raid3_read_with_one_failed_example =
    raid3_read_with_one_failed (cluster jsonify) codec "k" codec-CodecLaws
      (cluster-Keeps jsonify json_value (λ text. refl) "k") proxy "abcd" empty after refl
      proxy-IsDistinct refl (omega arith) (omega arith) abcd_stripped abcd_full put_stored
      without_second 1 ("n2", "u2") refl others_same second_fails

-- Two nodes have one value, the third another.
abbrev two_to_one : Nodes
two_to_one url = some (if url == "u3" then ("k", "y") ∷ [] else ("k", "x") ∷ [])

asked :
    QuorumProxy.ask_all
      (cluster jsonify)
      json_value
      json_value
      proxy.nodes
      proxy.nodes
      "k"
      []
      []
      two_to_one
    ≡ ok (("vx", 2) ∷ ("vy", 1) ∷ [], [])
unfolding QuorumProxy.ask_all QuorumProxy.count_up cluster_get get_handler Dict.lookup Dict.insert
asked = refl

quorum_read_iff_majority_example :
    (QuorumProxy.get (cluster jsonify) json_value json_value proxy.nodes "k" two_to_one
      ≡ ok (answer (content "vx") 200))
    ↔ (3 < 2 * votes (cluster jsonify) "k" two_to_one "vx" proxy.nodes)
quorum_read_iff_majority_example =
    quorum_read_iff_majority (cluster jsonify) "k" two_to_one json_value json_value proxy.nodes
      (("vx", 2) ∷ ("vy", 1) ∷ []) [] "vx" asked

-- Five bytes for four data nodes make three blocks.
short_split :
    raid3_split codec.encode codec.decode 4 "abcde"
    ≡ ok (
        record { index = some 0; data_ = 97 ∷ 98 ∷ [] }
        ∷ record { index = some 1; data_ = 99 ∷ 100 ∷ [] }
        ∷ record { index = some 2; data_ = 101 ∷ 0 ∷ [] }
        ∷ [])
unfolding raid3_split split_bytes slices padded
short_split = refl

parity_is_read_as_value_example :
    raid3_recover codec.encode
      (λ bs. ok (numbers bs))
      (some (record { index = some 0; data_ = 2 ∷ [] })
        ∷ some (record { index = none; data_ = 2 ∷ [] })
        ∷ none
        ∷ [])
      2
    ≡ ok (numbers (2 ∷ 2 ∷ []))
unfolding rstrip
parity_is_read_as_value_example =
    parity_is_read_as_value codec.encode (λ bs. ok (numbers bs))
      (record { index = some 0; data_ = 2 ∷ [] } ∷ []) (record { index = none; data_ = 2 ∷ [] })
