-- ===== src/Node/Boot.antt =====
-- node.cpp: start_node, and what a node makes of the serialized changes of the configuration.
use kvd.Base.{
  ℕ, suc, false, List, [], ◌∷◌, ◌==◌, if◌then◌else◌, length, add64, Result, ok, ◌>>=◌, deref,
}
use kvd.Proto.{Entry, Status, empty_message, prop, entry_conf_change}
use kvd.Storage
use kvd.Config.{Config}
use kvd.RaftLog
use kvd.Raft.State.{Raft}
use kvd.Raft.Roles.{become_follower}
use kvd.Raft.Step
use kvd.Raft.Members.{add_node_or_learner}
use kvd.Raft.Start
use kvd.Node.{ConfChange, add_node, PeerContext, RawNode, on_raft, first_states}

module _ (serialize : ConfChange → List ℕ) where
  -- The entries of the loop over the peers, from the `i`th on.
  unfoldable pub peer_entries : ℕ → List PeerContext → List Entry
  peer_entries i [] = []
  peer_entries i (peer ∷ peers) =
      record {
        type = entry_conf_change;
        term = 1;
        index = add64 i 1;
        payload = serialize (record {
          id = 0;
          conf_change_type = add_node;
          node_id = peer.id;
          context = peer.context;
        });
      }
      ∷ peer_entries (suc i) peers

  unfoldable pub add_nodes : List PeerContext → Raft → Result Raft
  add_nodes [] r = ok r
  add_nodes (peer ∷ peers) r = add_node_or_learner peer.id false r >>= λ p. add_nodes peers p.1

  -- A node whose log is empty starts with the changes that add its peers, which are committed.
  unfoldable pub bootstrap : List PeerContext → Raft → Result Raft
  bootstrap peers r = become_follower 1 0 r >>= λ p.
      RaftLog.append p.1.raft_log (peer_entries 0 peers) >>= λ q.
      add_nodes peers (record p.1 { raft_log = record q.1 { committed = length peers } })

  -- start_node
  unfoldable pub start : Config → List PeerContext → (ℕ → ℕ) → Result RawNode
  start conf peers draws = Start.new conf draws >>= λ r. deref conf.storage >>= λ st.
      Storage.last_index st >>= λ last.
      (if last == 0 then bootstrap peers r else ok r) >>= λ s. ok (first_states last s)

  unfoldable pub propose_conf_change : ConfChange → RawNode → Result (Status × RawNode)
  propose_conf_change cc = on_raft (
      Step.step (record empty_message {
        type = prop;
        entries =
            record { type = entry_conf_change; term = 0; index = 0; payload = serialize cc } ∷ [];
      }))
