-- ===== src/Peers/Sample.antt =====
-- Two pickers with a simple checksum, as NewClientPicker of peers.go makes them.
use locache.Base.{ℕ, ◌+◌, ◌*◌, ◌%◌, ◌≡◌, refl, some, [], ◌∷◌, Bool, true, retain, ℕ_discrete}
use locache.Base.Words.{gt64, add64}
use locache.Base.Str.{Str, str_dec}
use locache.Base.Map.{lookup, insert, delete}
use locache.Base.Decimal.{decimal}
use locache.ConsistentHash
use locache.ConsistentHash.{
  apply_setting, apply_settings, label, rounds, node_points, add_node, add_nodes,
}
use locache.ConsistentHash.Order.{
  str_lt, less, insert_point, sort_points, insert_string, sort_strings,
}
use locache.ConsistentHash.Search.{at_least, search_loop, search}
use locache.Registry.{ok, service_prefix, service_key}
use locache.Peers.{
  ClientPicker, after_prefix, parse_addr_from_key, sorted_keys, new_client, picked_for, pick_owner,
  close, invalidate, targets, failures, members_of,
}
use locache.Peers.Changes.{
  all_members, same_members, fresh_ring, new_clients, dropped, replace_membership, with_client,
  add_member, remove_member, desired_members, refresh_snapshot,
}
use locache.Peers.Invariant.{IsValid}
use locache.Peers.Watch
use locache.Peers.Watch.{
  put_event, delete_event, Round, handle, handle_all, next_revision, consume, watch,
  with_hash_replicas, apply_option, apply_options, bare_picker, with_self, new_client_picker,
}
use locache.Peers.Watch.Laws

-- Everything that a run of a picker computes with.
unfoldable pub program : Unit {0}
unfolding str_dec ℕ_discrete lookup insert delete gt64 add64 decimal retain apply_setting
    apply_settings ConsistentHash.new label rounds node_points add_node add_nodes ConsistentHash.add
    ConsistentHash.remove ConsistentHash.get ConsistentHash.pick ConsistentHash.node_at str_lt less
    insert_point sort_points insert_string sort_strings at_least search_loop search service_prefix
    service_key after_prefix parse_addr_from_key sorted_keys new_client picked_for pick_owner close
    invalidate targets failures members_of all_members same_members fresh_ring new_clients dropped
    replace_membership with_client add_member remove_member desired_members refresh_snapshot handle
    handle_all next_revision consume watch apply_option apply_options bare_picker with_self
    new_client_picker
program = tt

abbrev pub sum : Str → ℕ
sum [] = 0
sum (b ∷ s) = (b * 7 + sum s * 31) % 1000

abbrev pub all_dial : Str → Bool
all_dial addr = true

abbrev pub node_x : Str
node_x = 120 ∷ []

abbrev pub node_y : Str
node_y = 121 ∷ []

abbrev pub start : Str → Str → ClientPicker × ℕ
start self other =
    refresh_snapshot sum all_dial ((([], other) ∷ []), 7)
      (with_self (apply_options sum (with_hash_replicas 2 ∷ []) (bare_picker sum self)))

unfoldable pub picker : ClientPicker
picker = (start node_x node_y).0

unfoldable pub other_picker : ClientPicker
other_picker = (start node_y node_x).0

pub made_by_new :
    (self other : ℕ)
    → new_client_picker sum all_dial
        (ok (self ∷ []))
        true
        (some (([], other ∷ []) ∷ [], 7))
        (with_hash_replicas 2 ∷ [])
      ≡ Watch.made (start (self ∷ []) (other ∷ []))
unfolding new_client_picker
made_by_new self other = refl

pub picker-IsValid : IsValid sum picker
unfolding program picker
picker-IsValid =
    Laws.watch-new_client_picker sum all_dial 120 [] (some (([], node_y) ∷ [], 7))
      (with_hash_replicas 2 ∷ []) (start node_x node_y) [] (made_by_new 120 121)

pub other_picker-IsValid : IsValid sum other_picker
unfolding program other_picker
other_picker-IsValid =
    Laws.watch-new_client_picker sum all_dial 121 [] (some (([], node_x) ∷ [], 7))
      (with_hash_replicas 2 ∷ []) (start node_y node_x) [] (made_by_new 121 120)
