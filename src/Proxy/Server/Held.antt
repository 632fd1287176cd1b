-- ===== src/Proxy/Server/Held.antt =====
-- Messages that a proxy keeps for later, and numbers that it puts in place of a client's
-- (`ProxyServer` in object_database/proxy_server.py).
use object_database.Prelude.{
  ℕ, ◌+◌, String, Option, ◌≡◌, refl, none, some, List, [], ◌∷◌, ◌++◌, nat_eq, arith, inl, inr,
  Option-cases,
}
use object_database.Collections.Dict.{Dict, get, insert, get-insert, get-insert_self, get-delete}
use object_database.Prelude.Exec.{Exec, Outcome, ok, raised, state_of, type_error}
use object_database.Schema.{Bytes, ObjectId, IndexValue}
use object_database.Server.Messages.{ClientToServer, flush, flush_response, subscription_eq}
use object_database.Server.State.{ChannelId}
use object_database.Proxy.State.{SubscriptionState}
use object_database.Proxy.Departure.{SetPop}
use object_database.Proxy.Subscriptions.{Replay, Conversion}
use object_database.Proxy.Server.{ProxyServer, send_upstream, send_down}
use object_database.Proxy.Server.Requests.{on_flush, queue, unless_pending}
use object_database.Proxy.Server.Replies.{on_flush_response}
use object_database.Proxy.Server.Sound.{IsSound, IsNumbered}
use object_database.Proxy.Server.Reachable.{Reaches, Reaches-IsSound}

response-gone :
    (guid : ℕ) (p : ProxyServer)
    → get p.guids.outgoing_flush guid ≡ none
    → on_flush_response guid p ≡ p
unfolding on_flush_response
response-gone guid p e = rw (on_flush_response, e) refl

-- A reply takes the number off the table.
get-response :
    (guid : ℕ) (p : ProxyServer) → get (on_flush_response guid p).guids.outgoing_flush guid ≡ none
unfolding on_flush_response
get-response guid p = elim (Option-cases (get p.guids.outgoing_flush guid)) [
  | inl e ↦ rw (on_flush_response, e) e
  | inr (k, e) ↦
      rw (on_flush_response, e) (ground (arith, get-delete p.guids.outgoing_flush guid guid))
]

module _ (set_pop : SetPop) (to_identity : IndexValue → Option ObjectId)
    (uuid : ProxyServer → String) (convert : Conversion) (true_bytes : Bytes)
    (get_of_none : Dict ObjectId Bytes → Option (Option Bytes)) (token : String) where
  flush-fresh :
      (p : ProxyServer)
      → Reaches set_pop to_identity uuid convert true_bytes get_of_none token p
      → get p.guids.outgoing_flush (p.guids.flush_ix + 1) ≡ none
  unfolding IsSound IsNumbered
  flush-fresh p r =
      let sound =
        Reaches-IsSound set_pop to_identity uuid convert true_bytes get_of_none token p r in
      elim (Option-cases (get p.guids.outgoing_flush (p.guids.flush_ix + 1))) [
        | inl e ↦ e
        | inr (k, e) ↦ absurd (omega (arith, sound.1.4 (p.guids.flush_ix + 1) k e))
      ]

  -- In every proxy that the calls lead to, a client's flush goes to the main server under a number that
  -- no flush without a reply has, and all those keep their numbers; the reply to this number goes
  -- to the client under its own number, a second reply changes nothing.
  pub flush_response-flush :
      (c : ChannelId) (guid : ℕ) (p : ProxyServer)
      → Reaches set_pop to_identity uuid convert true_bytes get_of_none token p
      → ((n : ℕ) × (get p.guids.outgoing_flush n ≡ none)
          × ((on_flush c guid p).upstream ≡ p.upstream ++ flush n ∷ [])
          × ((m : ℕ) (k : ChannelId × ℕ)
              → get p.guids.outgoing_flush m ≡ some k
              → get (on_flush c guid p).guids.outgoing_flush m ≡ some k)
          × ((on_flush_response n (on_flush c guid p)).subscription_state.sent
              ≡ p.subscription_state.sent ++ (c, flush_response guid) ∷ [])
          × (on_flush_response n (on_flush_response n (on_flush c guid p))
              ≡ on_flush_response n (on_flush c guid p)))
  unfolding on_flush on_flush_response send_upstream send_down
  flush_response-flush c guid p r =
      let ix = p.guids.flush_ix + 1 in
      let fresh = flush-fresh p r in
      let found = get-insert_self p.guids.outgoing_flush ix (c, guid) in
      (
        ix,
        fresh,
        refl,
        (λ m k e. ground (arith, get-insert p.guids.outgoing_flush ix m (c, guid), fresh, e)),
        rw (on_flush, on_flush_response, found) refl,
        response-gone ix (on_flush_response ix (on_flush c guid p))
            (get-response ix (on_flush c guid p)),
      )

-- The messages of a client that are held, one after the other.
unfoldable pub queue_all : ChannelId → List ClientToServer → ProxyServer → ProxyServer
queue_all c [] p = p
queue_all c (msg ∷ msgs) p = queue_all c msgs (queue c msg p)

-- What a client sends while a subscription of its is pending, each message by way of the test that holds
-- it back; `run` is what is done with it otherwise.
unfoldable pub hold_all :
    (ClientToServer → Exec ProxyServer (Unit {0}))
    → ChannelId
    → List ClientToServer
    → ProxyServer
    → ProxyServer
unfolding unless_pending
hold_all run c [] p = p
hold_all run c (msg ∷ msgs) p = hold_all run c msgs (state_of (unless_pending c msg (run msg) p))

-- What `hand_over` makes of the messages.
unfoldable pub handed :
    Option (List ClientToServer)
    → ChannelId
    → Replay
    → SubscriptionState
    → Outcome SubscriptionState Replay
handed none c replay s = raised type_error s
handed (some msgs) c replay s = ok (insert c msgs replay) s
