-- ===== src/Agent/Pool.antt =====
-- internal/agent/pool/pool.go: the known agents. A client keeps the node that it was made for; what it
-- fetches is the parameter `fetch`.
pub mod Refresh
use domux.Prelude.{Bool, true, false, Option, none, some, List, [], ◌∷◌, ◌++◌, if◌then◌else◌, map}
use domux.Prelude.Result.{Result, ok, err, error}
use domux.Text.{Text, codes, ◌==◌, le_text}
use domux.Mapping.{Mapping, get, put, delete, keys}
use domux.Sort.{sort}
use domux.Core.Types.{Time, SystemResources, AgentNode, status_online, status_offline}

-- agentclient.Client, by the node it was made for
pub record Client : Type 0 where
  pub node : AgentNode

pub record Entry : Type 0 where
  pub client : Client
  pub node : AgentNode

abbrev pub Pool : Type 0
Pool = Mapping Entry

-- New
abbrev pub new : Pool
new = []

-- Add; making a client does not fail.
unfoldable pub add : AgentNode → Pool → Pool × Client
add node p = elim (get node.name p) [
  | some existing ↦ (put node.name (record existing { node = node }) p, existing.client)
  | none ↦
      let client : Client = record { node = node } in
      (put node.name (record { client = client; node = node }) p, client)
]

unfoldable pub get_by_name : Text → Pool → Option Client
get_by_name name p = elim (get name p) [ none ↦ none | some entry ↦ some entry.client ]

-- GetByAddr, for maps in their iteration order
unfoldable pub get_by_addr : Text → Pool → Option Client
get_by_addr addr [] = none
get_by_addr addr ((name, entry) ∷ p) =
    let rest = get_by_addr addr p in
    if entry.client.node.addr == addr then some entry.client else rest

unfoldable pub remove : Text → Pool → Pool
remove name p = delete name p

unfoldable pub sorted_keys : Pool → List Text
sorted_keys p = sort le_text (keys p)

-- for _, name := range keys { out = append(out, f(p.clients[name])) }; every name is a key.
unfoldable pub pick {ℓ} : {A : Type ℓ} → (Entry → A) → List Text → Pool → List A
pick f [] p = []
pick f (name ∷ names) p = elim (get name p) [
  | none ↦ pick f names p
  | some entry ↦ f entry ∷ pick f names p
]

-- List
unfoldable pub list : Pool → List Client
list p = pick (λ (e : Entry). e.client) (sorted_keys p) p

unfoldable pub list_nodes : Pool → List AgentNode
list_nodes p = pick (λ (e : Entry). e.node) (sorted_keys p) p

-- What an agent answers about itself.
pub record Info : Type 0 where
  pub name : Text
  pub runtime : Text
  pub socket_path : Text
  pub version : Text
  pub resources : SystemResources

unfoldable pub set_node : Text → AgentNode → Pool → Pool
set_node name node p = elim (get name p) [
  | none ↦ p
  | some entry ↦ put name (record entry { node = node }) p
]

-- core.AgentNode{}
abbrev pub no_resources : SystemResources
no_resources = record { cpu_percent = 0; memory_percent = 0; disk_percent = 0; checked_at = 0 }

abbrev pub no_node : AgentNode
no_node = record {
  name = [];
  display_name = [];
  addr = [];
  runtime = [];
  socket_path = [];
  version = [];
  status = [];
  last_error = [];
  last_checked_at = 0;
  resources = no_resources;
}

-- The node that Refresh computes from what was fetched.
unfoldable pub updated : Time → AgentNode → Result Text Info → AgentNode
updated now node (err e) = record node {
  last_checked_at = now;
  status = status_offline;
  last_error = e;
}
updated now node (ok info) = record node {
  last_checked_at = now;
  name = info.name;
  runtime = info.runtime;
  socket_path = info.socket_path;
  version = info.version;
  resources = info.resources;
  status = status_online;
  last_error = [];
}

-- Refresh, where no other step comes between; the error is that of the fetch, or that there is no
-- such agent.
unfoldable pub refresh :
    (Client → Result Text Info) → Time → Text → Pool → Pool × AgentNode × Option Text
unfolding updated
refresh fetch now name p = elim (get name p) [
  | none ↦ (p, no_node, some (codes "agent \"" ++ name ++ codes "\" not found"))
  | some entry ↦
      let answer = fetch entry.client in
      let node = updated now entry.node answer in (set_node name node p, node, error answer)
]

-- the loop of RefreshAll
unfoldable pub refresh_each :
    (Client → Result Text Info) → Time → List Text → Pool → Pool × List AgentNode
refresh_each fetch now [] p = (p, [])
refresh_each fetch now (name ∷ names) p =
    let (p', node, e) = refresh fetch now name p in
    let (q, nodes) = refresh_each fetch now names p' in (q, node ∷ nodes)

unfoldable pub refresh_all : (Client → Result Text Info) → Time → Pool → Pool × List AgentNode
refresh_all fetch now p = refresh_each fetch now (sorted_keys p) p
