-- ===== src/Proxy/Broadcast/Receivers.antt =====
-- Who hears of a transaction, in the second half of `handleTransaction`
-- (object_database/proxy_server.py).
use object_database.Prelude.{Bool, false, ◌||◌, ◌&&◌, List, [], ◌∷◌, map, nat_eq}
use object_database.Collections.Set.{member}
use object_database.Schema.{ObjectId, FieldId}
use object_database.Server.Messages.{ServerToClient}
use object_database.Server.State.{ChannelId}
use object_database.Proxy.State.{Subscribers, at}
use object_database.Proxy.Transactions.{Broadcast}

-- Is the channel subscribed to one of the fields, or to one of the objects?
unfoldable pub hears_field : Subscribers → List FieldId → ChannelId → Bool
hears_field s [] c = false
hears_field s (f ∷ fs) c = member (at s.field_id_to_subscribed_channels f) c || hears_field s fs c

unfoldable pub hears_oid : Subscribers → List ObjectId → ChannelId → Bool
hears_oid s [] c = false
hears_oid s (i ∷ ids) c = member (at s.oid_to_subscribed_channels i) c || hears_oid s ids c

-- Is the channel subscribed to one of the fields, and lazily so?
unfoldable pub hears_lazily : Subscribers → List FieldId → ChannelId → Bool
hears_lazily s [] c = false
hears_lazily s (f ∷ fs) c =
    (member (at s.field_id_to_subscribed_channels f) c
      && member (at s.channel_to_lazily_subscribed_field_ids c) f)
    || hears_lazily s fs c

abbrev is_lazily : Subscribers → FieldId → ChannelId → Bool
is_lazily s f c = member (at s.channel_to_lazily_subscribed_field_ids c) f

-- One message for each channel.
abbrev pub to_all : ServerToClient → List ChannelId → List (ChannelId × ServerToClient)
to_all msg cs = map (λ c. (c, msg)) cs
