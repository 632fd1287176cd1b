-- ===== src/Proxy/Server/Sound.antt =====
-- What holds between the tables of `ProxyServer` (object_database/proxy_server.py): of its clients, of
-- the numbers of their transactions, and of what it has asked of the main server.
use object_database.Prelude.{
  ℕ, ◌+◌, ◌≤◌, String, Bool, true, false, not, ◌&&◌, none, some, List, [], ◌∷◌, ◌++◌, ◌≡◌,
  if◌then◌else◌, beq, nat_eq, string_eq, pair_eq, arith, inl, inr, Option-cases,
}
use object_database.Collections.Dict.{
  get, has, insert, delete, get-insert, get-delete, has-insert, has-delete,
}
use object_database.Collections.Set.{member, add, discard, member-add, member-discard}
use object_database.Server.Messages.{ClientToServer, Subscription, subscribe}
use object_database.Server.State.{ChannelId}
use object_database.Proxy.Server.{Downstream, Guids, ProxyServer, forget_channel}
use object_database.Proxy.Server.Requests.{outgoing_guid}

-- Each connected channel, and no other, has a count of heartbeats; only connected ones are
-- authenticated.
unfoldable pub IsLive : Downstream → Type 0
IsLive d =
    ((c : ChannelId) → has d.missed_heartbeats c ≡ member d.channels c)
    × ((c : ChannelId) → member d.authenticated c ≡ true → member d.channels c ≡ true)

-- A number stands for one transaction of one channel, and was handed out; so was the number of a flush.
unfoldable pub IsNumbered : Guids → Type 0
IsNumbered g =
    ((k : ChannelId × ℕ) (n : ℕ) → get g.channel_to_outgoing k ≡ some n → n ≤ g.transaction_ix)
    × ((n : ℕ) (k : ChannelId × ℕ) → get g.outgoing_to_channel n ≡ some k → n ≤ g.transaction_ix)
    × ((j k : ChannelId × ℕ) (n : ℕ)
        → get g.channel_to_outgoing j ≡ some n
        → get g.channel_to_outgoing k ≡ some n
        → j ≡ k)
    × ((j k : ChannelId × ℕ) (n : ℕ)
        → get g.channel_to_outgoing j ≡ some n
        → get g.outgoing_to_channel n ≡ some k
        → j ≡ k)
    × ((n : ℕ) (k : ChannelId × ℕ) → get g.outgoing_flush n ≡ some k → n ≤ g.flush_ix)

-- The number of subscriptions to a type in what was sent upstream.
unfoldable pub subscribes : String × String → ClientToServer → ℕ
subscribes t (subscribe key) = if beq (key.schema, key.typename) t then 1 else 0
subscribes t _ = 0

unfoldable pub times_subscribed : String × String → List ClientToServer → ℕ
unfolding subscribes
times_subscribed t [] = 0
times_subscribed t (msg ∷ msgs) = subscribes t msg + times_subscribed t msgs

-- A subscription upstream is to all objects of a type.
unfoldable pub is_whole : ClientToServer → Bool
is_whole (subscribe key) = elim key.fieldname_and_value [ none ↦ not key.is_lazy | some _ ↦ false ]
is_whole _ = true

unfoldable pub all_whole : List ClientToServer → Bool
unfolding is_whole
all_whole [] = true
all_whole (msg ∷ msgs) = is_whole msg && all_whole msgs

-- Each type that the proxy has subscribed to was asked for once, and no other was.
unfoldable pub IsPooled : List (String × String) → List ClientToServer → Type 0
unfolding times_subscribed all_whole
IsPooled types upstream =
    ((t : String × String) → times_subscribed t upstream ≡ (if member types t then 1 else 0))
    × (all_whole upstream ≡ true)

unfoldable pub IsSound : ProxyServer → Type 0
unfolding IsLive IsNumbered IsPooled
IsSound p =
    IsLive p.downstream × IsNumbered p.guids × IsPooled p.iterations.subscribed_types p.upstream

times_subscribed-append :
    (t : String × String) (msgs : List ClientToServer) (msg : ClientToServer)
    → times_subscribed t (msgs ++ msg ∷ []) ≡ times_subscribed t msgs + subscribes t msg
unfolding times_subscribed
times_subscribed-append t [] msg = omega arith
times_subscribed-append t (m ∷ msgs) msg = omega (arith, times_subscribed-append t msgs msg)

all_whole-append :
    (msgs : List ClientToServer) (msg : ClientToServer)
    → all_whole (msgs ++ msg ∷ []) ≡ (all_whole msgs && is_whole msg)
unfolding all_whole
all_whole-append [] msg = ground arith
all_whole-append (m ∷ msgs) msg = ground (arith, all_whole-append msgs msg)

-- A message that is no subscription.
pub append-IsPooled :
    (types : List (String × String)) (upstream : List ClientToServer) (msg : ClientToServer)
    → ((t : String × String) → subscribes t msg ≡ 0)
    → is_whole msg ≡ true
    → IsPooled types upstream
    → IsPooled types (upstream ++ msg ∷ [])
unfolding IsPooled
append-IsPooled types upstream msg other whole h = (
  (λ t. omega (arith, times_subscribed-append t upstream msg, other t, h.0 t)),
  ground (arith, all_whole-append upstream msg, whole, h.1),
)

-- The first subscription to a type.
pub subscribe-IsPooled :
    (types : List (String × String)) (upstream : List ClientToServer) (key : Subscription)
    → member types (key.schema, key.typename) ≡ false
    → is_whole (subscribe key) ≡ true
    → IsPooled types upstream
    → IsPooled (add (key.schema, key.typename) types) (upstream ++ subscribe key ∷ [])
unfolding IsPooled subscribes
subscribe-IsPooled types upstream key fresh whole h = (
  (λ t. ground (
    arith,
    times_subscribed-append t upstream (subscribe key),
    h.0 t,
    member-add types (key.schema, key.typename) t,
  )),
  ground (arith, all_whole-append upstream (subscribe key), whole, h.1),
)

pub connect-IsLive :
    (c : ChannelId) (d : Downstream)
    → IsLive d
    → IsLive (record d {
      channels = add c d.channels;
      missed_heartbeats = insert c 0 d.missed_heartbeats;
    })
unfolding IsLive
connect-IsLive c d h = (
  (λ a. ground (arith, has-insert d.missed_heartbeats c a 0, member-add d.channels c a, h.0 a)),
  (λ a m. ground (arith, member-add d.channels c a, h.1 a m)),
)

pub forget-IsLive : (c : ChannelId) (d : Downstream) → IsLive d → IsLive (forget_channel c d)
unfolding IsLive forget_channel
forget-IsLive c d h = (
  (λ a. ground (arith, has-delete d.missed_heartbeats c a, member-discard d.channels c a, h.0 a)),
  (λ a m. ground (arith, member-discard d.channels c a, member-discard d.authenticated c a, h.1 a)),
)

-- A channel that has no count is not connected.
pub discard-IsLive :
    (c : ChannelId) (d : Downstream)
    → has d.missed_heartbeats c ≡ false
    → IsLive d
    → IsLive (record d { channels = discard c d.channels })
unfolding IsLive
discard-IsLive c d gone h = (
  (λ a. ground (arith, member-discard d.channels c a, gone, h.0 a)),
  (λ a m. ground (arith, member-discard d.channels c a, gone, h.0 a, h.1 a m)),
)

-- A new count for a connected channel.
pub count-IsLive :
    (c : ChannelId) (n : ℕ) (d : Downstream)
    → member d.channels c ≡ true
    → IsLive d
    → IsLive (record d { missed_heartbeats = insert c n d.missed_heartbeats })
unfolding IsLive
count-IsLive c n d here h =
    ((λ a. ground (arith, has-insert d.missed_heartbeats c a n, here, h.0 a)), h.1)

pub authenticate-IsLive :
    (c : ChannelId) (d : Downstream)
    → member d.channels c ≡ true
    → IsLive d
    → IsLive (record d { authenticated = add c d.authenticated })
unfolding IsLive
authenticate-IsLive c d here h =
    ((h.0), (λ a m. ground (arith, member-add d.authenticated c a, here, h.1 a)))

-- A new number, for a transaction that has none.
number-IsNumbered :
    (k : ChannelId × ℕ) (g : Guids)
    → IsNumbered g
    → IsNumbered (record g {
      transaction_ix = g.transaction_ix + 1;
      outgoing_to_channel = insert (g.transaction_ix + 1) k g.outgoing_to_channel;
      channel_to_outgoing = insert k (g.transaction_ix + 1) g.channel_to_outgoing;
    })
unfolding IsNumbered
number-IsNumbered k g (b1, b2, inj, agree, flushes) =
    let ix = g.transaction_ix + 1 in
    (
      (λ j n e. ground (arith, get-insert g.channel_to_outgoing k j ix, b1 j n)),
      (λ n j e. ground (arith, get-insert g.outgoing_to_channel ix n k, b2 n j)),
      (λ i j n e f. ground (
        arith,
        get-insert g.channel_to_outgoing k i ix,
        get-insert g.channel_to_outgoing k j ix,
        b1 i n,
        b1 j n,
        inj i j n,
      )),
      (λ i j n e f. ground (
        arith,
        get-insert g.channel_to_outgoing k i ix,
        get-insert g.outgoing_to_channel ix n k,
        b1 i n,
        b2 n j,
        agree i j n,
      )),
      flushes,
    )

pub outgoing_guid-IsNumbered :
    (c : ChannelId) (own : ℕ) (g : Guids) → IsNumbered g → IsNumbered (outgoing_guid c own g).0
unfolding outgoing_guid
outgoing_guid-IsNumbered c own g h = elim (Option-cases (get g.channel_to_outgoing (c, own))) [
  | inl p ↦ rw (outgoing_guid, p) (number-IsNumbered (c, own) g h)
  | inr (n, p) ↦ rw (outgoing_guid, p) h
]

pub complete-IsNumbered :
    (k : ChannelId × ℕ) (g : Guids)
    → IsNumbered g
    → IsNumbered (record g { channel_to_outgoing = delete k g.channel_to_outgoing })
unfolding IsNumbered
complete-IsNumbered k g (b1, b2, inj, agree, flushes) = (
  (λ j n e. ground (arith, get-delete g.channel_to_outgoing k j, b1 j n)),
  b2,
  (λ i j n e f. ground (
    arith,
    get-delete g.channel_to_outgoing k i,
    get-delete g.channel_to_outgoing k j,
    inj i j n,
  )),
  (λ i j n e f. ground (arith, get-delete g.channel_to_outgoing k i, agree i j n)),
  flushes,
)

pub result-IsNumbered :
    (n : ℕ) (g : Guids)
    → IsNumbered g
    → IsNumbered (record g { outgoing_to_channel = delete n g.outgoing_to_channel })
unfolding IsNumbered
result-IsNumbered n g (b1, b2, inj, agree, flushes) = (
  b1,
  (λ m k e. ground (arith, get-delete g.outgoing_to_channel n m, b2 m k)),
  inj,
  (λ i j m e f. ground (arith, get-delete g.outgoing_to_channel n m, agree i j m)),
  flushes,
)

-- A new number for a flush, and a flush that is answered.
pub flush-IsNumbered :
    (k : ChannelId × ℕ) (g : Guids)
    → IsNumbered g
    → IsNumbered (record g {
      flush_ix = g.flush_ix + 1;
      outgoing_flush = insert (g.flush_ix + 1) k g.outgoing_flush;
    })
unfolding IsNumbered
flush-IsNumbered k g (b1, b2, inj, agree, flushes) = (
  b1,
  b2,
  inj,
  agree,
  (λ n j e. ground (arith, get-insert g.outgoing_flush (g.flush_ix + 1) n k, flushes n j)),
)

pub response-IsNumbered :
    (n : ℕ) (g : Guids)
    → IsNumbered g
    → IsNumbered (record g { outgoing_flush = delete n g.outgoing_flush })
unfolding IsNumbered
response-IsNumbered n g (b1, b2, inj, agree, flushes) =
    (b1, b2, inj, agree, (λ m k e. ground (arith, get-delete g.outgoing_flush n m, flushes m k)))
