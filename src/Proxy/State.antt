-- ===== src/Proxy/State.antt =====
-- The tables of `SubscriptionState` in object_database/proxy_server.py, in groups. `sent` is what was
-- written to the channels of the proxy's clients, in order.
use object_database.Prelude.{
  String, Option, none, some, List, [], ◌∷◌, ◌++◌, Eq, ◌≡◌, if◌then◌else◌, beq, arith,
}
use object_database.Prelude.Int.{ℤ, negsuc}
use object_database.Collections.Dict.{Dict, get, insert, get-insert}
use object_database.Collections.Set.{add, add_all}
use object_database.Schema.{Bytes, ObjectId, FieldId, IndexValue, IndexId, FieldDefinition}
use object_database.Server.Messages.{SchemaDefinition, Subscription, ClientToServer, ServerToClient}
use object_database.Server.State.{ChannelId}

-- ConstDict(FieldDefinition, FieldId). An entry `none` does not come from the server.
abbrev pub Mapping : Type 0
Mapping = Dict FieldDefinition (Option FieldId)

-- SubscriptionKey
abbrev pub SubscriptionKey : Type 0
SubscriptionKey = Subscription

-- Who is subscribed to what.
pub record Subscribers : Type 0 where
  pub field_id_to_subscribed_channels : Dict FieldId (List ChannelId)
  pub channel_to_subscribed_field_ids : Dict ChannelId (List FieldId)
  pub index_id_to_subscribed_channels : Dict IndexId (List ChannelId)
  pub channel_to_subscribed_index_ids : Dict ChannelId (List IndexId)
  pub channel_to_subscribed_oids : Dict ChannelId (List ObjectId)
  pub oid_to_subscribed_channels : Dict ObjectId (List ChannelId)
  pub channel_to_lazily_subscribed_field_ids : Dict ChannelId (List FieldId)
  pub channel_to_lazily_subscribed_index_ids : Dict ChannelId (List IndexId)
  pub channel_subscriptions : Dict ChannelId (List SubscriptionKey)

-- What is known of the schemas.
pub record Schemas : Type 0 where
  pub schema_defs : Dict String Mapping
  pub defined_schemas : Dict String SchemaDefinition
  pub schema_type_and_name_to_field_id : Dict String (Dict String (Dict String FieldId))
  pub field_id_to_def : Dict FieldId FieldDefinition
  pub field_def_to_id : Dict FieldDefinition FieldId

-- What waits for a type that is not subscribed yet.
pub record Pending : Type 0 where
  pub channel_to_pending_subscriptions : Dict ChannelId (List SubscriptionKey)
  pub channel_to_pending_transactions : Dict ChannelId (List ClientToServer)
  pub subscriptions_pending_on_server : Dict (String × String) (List (ChannelId × SubscriptionKey))

-- The objects of the subscribed types.
pub record Values : Type 0 where
  pub object_values : Dict FieldId (Dict ObjectId Bytes)
  pub index_values : Dict FieldId (Dict ObjectId IndexValue)
  pub reverse_index_values : Dict FieldId (Dict IndexValue (List ObjectId))

pub record SubscriptionState : Type 0 where
  pub subscribers : Subscribers
  pub schemas : Schemas
  pub pending : Pending
  pub values : Values
  pub transaction_id : ℤ
  pub completed_types : List (String × String)
  pub sent : List (ChannelId × ServerToClient)

unfoldable pub init : SubscriptionState
init = record {
  subscribers = record {
    field_id_to_subscribed_channels = [];
    channel_to_subscribed_field_ids = [];
    index_id_to_subscribed_channels = [];
    channel_to_subscribed_index_ids = [];
    channel_to_subscribed_oids = [];
    oid_to_subscribed_channels = [];
    channel_to_lazily_subscribed_field_ids = [];
    channel_to_lazily_subscribed_index_ids = [];
    channel_subscriptions = [];
  };
  schemas = record {
    schema_defs = [];
    defined_schemas = [];
    schema_type_and_name_to_field_id = [];
    field_id_to_def = [];
    field_def_to_id = [];
  };
  pending = record {
    channel_to_pending_subscriptions = [];
    channel_to_pending_transactions = [];
    subscriptions_pending_on_server = [];
  };
  values = record { object_values = []; index_values = []; reverse_index_values = [] };
  transaction_id = negsuc 0;
  completed_types = [];
  sent = [];
}

-- What `setdefault` gives for a missing key: an empty set, dictionary or list.
unfoldable pub at {ℓ} : {K A : Type ℓ} ⦃e : Eq K⦄ → Dict K (List A) → K → List A
at d k = elim (get d k) [ none ↦ [] | some l ↦ l ]

pub at-insert :
    {K A : Type 0} ⦃e : Eq K⦄ (d : Dict K (List A)) (k j : K) (l : List A)
    → at (insert k l d) j ≡ (if beq k j then l else at d j)
unfolding at
at-insert d k j l = ground (arith, get-insert d k j l)

-- d.setdefault(k).add(a), d.setdefault(k).update(l)
unfoldable pub add_at {ℓ} :
    {K A : Type ℓ} ⦃e : Eq K⦄ ⦃f : Eq A⦄ → K → A → Dict K (List A) → Dict K (List A)
unfolding at
add_at k a d = insert k (add a (at d k)) d

unfoldable pub update_at {ℓ} :
    {K A : Type ℓ} ⦃e : Eq K⦄ ⦃f : Eq A⦄ → K → List A → Dict K (List A) → Dict K (List A)
unfolding at
update_at k l d = insert k (add_all l (at d k)) d

-- channel.sendMessage(msg), which is channel.write
unfoldable pub send : ChannelId → ServerToClient → SubscriptionState → SubscriptionState
send c msg s = record s { sent = s.sent ++ (c, msg) ∷ [] }
