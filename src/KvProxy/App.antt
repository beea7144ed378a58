-- ===== src/KvProxy/App.antt =====
-- kv/proxy/main.py: the handlers, and the choice of the proxy. The page of /state is left out.
use distsys_course_work.Prelude.{
  ℕ, String, Option, none, some, List, [], ◌∷◌, text_eq, ◌==◌, if◌then◌else◌,
}
use distsys_course_work.Prelude.Dict
use distsys_course_work.Runtime.{Result, ok, raise, value_error, ◌>>=◌}
use distsys_course_work.KvProxy.Http.{Http, Answer}
use distsys_course_work.KvProxy.ShardingProxy
use distsys_course_work.KvProxy.ReplicatingProxy
use distsys_course_work.KvProxy.QuorumProxy
use distsys_course_work.KvProxy.Raid3Proxy as Raid3
use distsys_course_work.KvProxy.Raid3Proxy.{Raid3Proxy, Codec}

pub data Proxy : Type 0 where
  sharding : List (String × String) → Proxy
  replication : List (String × String) → Proxy
  replication_quorum : List (String × String) → Proxy
  replication_raid3 : Raid3Proxy → Proxy

-- nodes[name] = {'url': url}, for each node of the configuration
abbrev pub nodes_of_config :
    List (String × String) → List (String × String) → List (String × String)
nodes_of_config nodes [] = nodes
nodes_of_config nodes ((name, url) ∷ config) = nodes_of_config (Dict.insert name url nodes) config

unfoldable pub load_proxy_from_config : String → List (String × String) → Result Proxy
load_proxy_from_config mode config =
    let nodes = nodes_of_config [] config in
    if mode == "sharding"
    then ok (sharding nodes)
    else if mode == "replication"
    then ok (replication nodes)
    else if mode == "replication-quorum"
    then ok (replication_quorum nodes)
    else if mode == "replication-raid3"
    then (Raid3.init nodes >>= λ p. ok (replication_raid3 p))
    else raise value_error

-- What the handlers answer by themselves, or the proxy's answer.
pub data Handled : Type 0 where
  key_and_value_missing : Handled
  key_missing : Handled
  proxied : Answer → Handled

module _ {W : Type 0} (http : Http W) (sha256 : String → ℕ) (codec : Codec)
    (json : String → Result String) where
  unfoldable pub proxy_put : Proxy → String → String → W → Result (Answer × W)
  proxy_put (sharding nodes) key value w = ShardingProxy.put http sha256 nodes key value w
  proxy_put (replication nodes) key value w = ReplicatingProxy.put http nodes key value w
  proxy_put (replication_quorum nodes) key value w =
      QuorumProxy.put http json codec.json_value nodes key value w
  proxy_put (replication_raid3 p) key value w = Raid3.put http codec p key value w

  unfoldable pub proxy_get : Proxy → String → W → Result Answer
  proxy_get (sharding nodes) key w = ShardingProxy.get http sha256 nodes key w
  proxy_get (replication nodes) key w = ReplicatingProxy.get http json nodes key w
  proxy_get (replication_quorum nodes) key w =
      QuorumProxy.get http json codec.json_value nodes key w
  proxy_get (replication_raid3 p) key w = Raid3.get http codec p key w

  -- The status of an answer without a key is 400.
  unfoldable pub put_handler : Proxy → Option String → Option String → W → Result (Handled × W)
  put_handler proxy none value w = ok (key_and_value_missing, w)
  put_handler proxy (some key) none w = ok (key_and_value_missing, w)
  put_handler proxy (some key) (some value) w =
      proxy_put proxy key value w >>= λ (a, w'). ok (proxied a, w')

  unfoldable pub get_handler : Proxy → Option String → W → Result Handled
  get_handler proxy none w = ok key_missing
  get_handler proxy (some key) w = proxy_get proxy key w >>= λ a. ok (proxied a)
