-- ===== src/Peers/Tests.antt =====
-- Runs of a picker with a simple checksum, and the theorems about such pickers.
use locache.Base.{ℕ, ◌≡◌, ◌≢◌, ◌⊎◌, refl, ap, none, some, [], ◌∷◌, true, false, arith}
use locache.Base.Words.{add64}
use locache.Base.Str.{Str}
use locache.Base.Map.{lookup}
use locache.Registry.{service_key}
use locache.Peers.{Picked, picked_for, pick_owner, members_of}
use locache.Peers.Changes.{refresh_snapshot}
use locache.Peers.Invariant.{IsValid}
use locache.Peers.Replace
use locache.Peers.Watch.{put_event, delete_event, Round, handle, watch, with_hash_replicas}
use locache.Peers.Watch.Laws
use locache.Peers.Watch.Epochs
use locache.Peers.Watch.Keys
use locache.Peers.Picks
use locache.Peers.Picks.{IsPick}
use locache.Peers.Sample.{
  program, sum, all_dial, node_x, node_y, start, picker, other_picker, made_by_new, picker-IsValid,
  other_picker-IsValid,
}

abbrev node_z : Str
node_z = 122 ∷ []

abbrev first_byte : Str → ℕ
first_byte [] = 0
first_byte (b ∷ s) = b

-- One round: node z comes, and the watch fails.
abbrev round : Round
round = record {
  responses = record { failed = false; events = put_event ([], node_z) ∷ []; revision = 9 } ∷ [];
  cancelled = false;
  snapshot = none;
}

watch-new_client_picker_example :
    IsValid sum (watch sum all_dial (round ∷ []) (start node_x node_y)).0
watch-new_client_picker_example =
    Laws.watch-new_client_picker sum all_dial 120 [] (some (([], node_y) ∷ [], 7))
      (with_hash_replicas 2 ∷ []) (start node_x node_y) (round ∷ []) (made_by_new 120 121)

refresh_snapshot-members_example :
    lookup node_y (refresh_snapshot sum all_dial (([], node_z) ∷ [], 3) picker).0.members ≡ none
unfolding program picker
refresh_snapshot-members_example =
    Replace.refresh_snapshot-members sum all_dial (([], node_z) ∷ []) 3 picker picker-IsValid node_y

node_z_moves :
    (handle all_dial (put_event ([], node_z)) picker ≡ picker)
    ⊎ (((handle all_dial (put_event ([], node_z)) picker).epoch ≡ add64 picker.epoch 1)
        × ((j : Str) × (lookup j (handle all_dial (put_event ([], node_z)) picker).members
              ≢ lookup j picker.members)))
node_z_moves = Epochs.handle-moves all_dial (put_event ([], node_z)) picker

pick_owner_agree_example :
    (a b : Picked) × ((pick_owner (9 ∷ []) picker ≡ some a)
      × (pick_owner (9 ∷ []) other_picker ≡ some b)
      × (a.owner ≡ b.owner)
      × (a.is_self ≡ true → b.is_self ≡ true → picker.self_addr ≡ other_picker.self_addr))
unfolding program picker other_picker
pick_owner_agree_example =
    Picks.pick_owner_agree sum (9 ∷ []) picker other_picker picker-IsValid other_picker-IsValid refl
      (λ j. ground arith)

pick_owner-IsPick_example : (a : Picked) × ((pick_owner (9 ∷ []) picker ≡ some a) × IsPick picker a)
pick_owner-IsPick_example = Picks.pick_owner-IsPick sum 9 [] picker picker-IsValid

handle-service_key_example :
    let q = handle all_dial (put_event ([], node_z)) picker in
    (lookup node_z q.members ≡ some tt)
    × ((j : Str)
        → lookup j
            (handle all_dial
              (delete_event (service_key picker.svc_name node_z) (some node_x))
              q).members
          ≡ lookup j picker.members)
    × ((j : Str)
        → lookup j (handle all_dial (delete_event [] (some node_z)) q).members
          ≡ lookup j picker.members)
unfolding program picker
handle-service_key_example =
    Keys.handle-service_key all_dial 122 [] [] [] (some node_x) picker
      (λ e. omega (arith, ap first_byte e)) refl refl

-- Another node owns this key; after a close the peer is a nil client.
picker_runs :
    (members_of picker ≡ node_x ∷ node_y ∷ [])
    × (pick_owner (9 ∷ []) picker ≡ some (picked_for picker node_y))
unfolding program picker
picker_runs = (refl, refl)
