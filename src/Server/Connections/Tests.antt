-- ===== src/Server/Connections/Tests.antt =====
-- A channel with a subscription of each kind leaves.
use object_database.Prelude.{
  ℕ, ◌≡◌, refl, Bool, true, false, Option, none, List, [], ◌∷◌, map, nat_eq,
}
use object_database.Prelude.Int.{negsuc}
use object_database.Prelude.Exec.{ok}
use object_database.Collections.Set.{member}
use object_database.Schema.{FieldId, ObjectId, IndexId, index_eq}
use object_database.Server.State.{ConnectedChannel, Routing, connected_channel}
use object_database.Server.Connections.{leave_all}
use object_database.Server.Connections.Registries.{Absent}
use object_database.Server.Connections.Departure.{leave_all-Absent}

abbrev name_index : IndexId
name_index = record { field_id = 2; index_value = 65 ∷ [] }

abbrev leaver : ConnectedChannel
unfolding connected_channel
leaver = record (connected_channel 0 5 77 1) {
  subscribed_fields = (0, negsuc 0) ∷ [];
  subscribed_index_keys = (name_index, negsuc 0) ∷ [];
  subscribed_ids = 8 ∷ [];
}

-- Channel 6 has the same field and object; the index key has no other subscriber.
abbrev before : Routing
unfolding leaver
before = record {
  channels = (5, leaver) ∷ [];
  client_channels = 6 ∷ 5 ∷ [];
  field_id_to_channel = (0, 5 ∷ 6 ∷ []) ∷ [];
  index_to_channel = (name_index, 5 ∷ []) ∷ [];
  id_to_channel = (8, 6 ∷ 5 ∷ []) ∷ [];
  pending_subscription_recheck = none;
  sent = [];
}

abbrev after : Routing
unfolding before
after = record before {
  client_channels = 6 ∷ [];
  field_id_to_channel = (0, 6 ∷ []) ∷ [];
  index_to_channel = [];
  id_to_channel = (8, 6 ∷ []) ∷ [];
}

left : leave_all 5 leaver before ≡ ok tt after
unfolding leave_all after before leaver object_database.Collections.Dict.get
    object_database.Prelude.ℕ_discrete object_database.Schema.index_discrete
    object_database.Collections.Set.discard object_database.Collections.Dict.insert
    object_database.Collections.Dict.delete
left = refl

leave_all-Absent_example :
    ((f : FieldId)
      → member (map (λ e. e.0) leaver.subscribed_fields) f ≡ true
      → Absent 5 after.field_id_to_channel f)
    × ((k : IndexId)
        → member (map (λ e. e.0) leaver.subscribed_index_keys) k ≡ true
        → Absent 5 after.index_to_channel k)
    × ((i : ObjectId) → member leaver.subscribed_ids i ≡ true → Absent 5 after.id_to_channel i)
    × (member after.client_channels 5 ≡ false)
leave_all-Absent_example = leave_all-Absent 5 leaver before after left
