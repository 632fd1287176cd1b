-- ===== src/Proxy/Server/Answers.antt =====
-- Whom the main server's verdict on a client's transaction goes to (`ProxyServer` in
-- object_database/proxy_server.py).
use object_database.Prelude.{
  ℕ, ◌+◌, String, Bool, Option, none, some, List, [], ◌∷◌, ◌++◌, ◌≡◌, refl, nat_eq, pair_eq, inl,
  inr, Option-cases, subst, ap, ◌∙◌, arith,
}
use object_database.Prelude.Int.{ℤ}
use object_database.Prelude.Exec.{Outcome, ok, raised, state_of}
use object_database.Collections.Dict.{Dict, get, insert, get-insert, get-insert_self, get-delete}
use object_database.Schema.{Bytes, ObjectId, IndexValue}
use object_database.Server.Messages.{
  ClientToServer, BadKey, TransactionData, transaction_data, complete_transaction,
  transaction_result,
}
use object_database.Server.State.{ChannelId}
use object_database.Proxy.Departure.{SetPop}
use object_database.Proxy.Subscriptions.{Conversion}
use object_database.Proxy.Broadcast.{increase_subscription_if_necessary}
use object_database.Proxy.Server.{Guids, ProxyServer, on_state, send_upstream, send_down}
use object_database.Proxy.Server.Requests.{
  outgoing_guid, on_transaction_data, on_complete_transaction,
}
use object_database.Proxy.Server.Replies.{on_transaction_result}
use object_database.Proxy.Server.Sound.{IsSound, IsNumbered}
use object_database.Proxy.Server.Steps.{IsSame, on_state-IsSame}
use object_database.Proxy.Server.Reachable.{Reaches, Reaches-IsSound}

-- What a client's data does upstream: it goes there under the number, unless the call raises.
unfoldable pub IsForwarded :
    ℕ → List ClientToServer → TransactionData → Outcome ProxyServer (Unit {0}) → Type 0
IsForwarded n before d (ok _ q) = q.upstream ≡ before ++ transaction_data n d ∷ []
IsForwarded n before d (raised _ q) = q.upstream ≡ before

-- A transaction of one chunk of data, up to its completion.
unfoldable pub completed :
    ℕ → ChannelId → ℕ → TransactionData → ℤ → Bool → ProxyServer → ProxyServer
completed tid c own d as_of no_log p =
    on_complete_transaction c as_of own no_log (state_of (on_transaction_data tid c own d p))

abbrev pub verdict : ℕ → Bool → Option BadKey → Bool → ProxyServer → ProxyServer
verdict n success bad_key is_exception p = on_transaction_result n success bad_key is_exception p

-- The data of a transaction, whatever its number.
on_transaction_data_lem :
    (tid : ℕ) (c : ChannelId) (own : ℕ) (d : TransactionData) (p : ProxyServer)
    → ((state_of (on_transaction_data tid c own d p)).guids ≡ (outgoing_guid c own p.guids).0)
      × IsForwarded
          ((outgoing_guid c own p.guids).1)
          p.upstream
          d
          (on_transaction_data tid c own d p)
unfolding on_transaction_data IsSame IsForwarded send_upstream
on_transaction_data_lem tid c own d p =
    let named = outgoing_guid c own p.guids in
    let m = increase_subscription_if_necessary c d.set_adds tid in
    go named (on_state m (record p { guids = named.0 })) (
      (on_state-IsSame (λ _. Unit {0}) m (record p { guids = named.0 })
          (record { kept = λ _ _. tt })).kept
        (record p { guids = named.0 }) (refl, refl, refl, tt))
  where
    send_named : ℕ → Outcome ProxyServer (Unit {0}) → Outcome ProxyServer (Unit {0})
    send_named n o = elim o [
      | ok a q ↦ ok tt (send_upstream (transaction_data n d) q)
      | raised e q ↦ raised e q
    ]

    go :
        (named : Guids × ℕ) (o : Outcome ProxyServer (Unit {0}))
        → IsSame (λ _. Unit {0}) (record p { guids = named.0 }) (state_of o)
        → ((state_of (send_named (named.1) o)).guids ≡ named.0)
          × IsForwarded (named.1) p.upstream d (send_named (named.1) o)
    go named (ok a q) (g, i, u, _) = (g, ap (λ l. l ++ transaction_data (named.1) d ∷ []) u)
    go named (raised e q) (g, i, u, _) = (g, u)

-- The tables with a number for a transaction that has none.
unfoldable numbered : ChannelId × ℕ → Guids → Guids
numbered k g = record g {
  transaction_ix = g.transaction_ix + 1;
  outgoing_to_channel = insert (g.transaction_ix + 1) k g.outgoing_to_channel;
  channel_to_outgoing = insert k (g.transaction_ix + 1) g.channel_to_outgoing;
}

begun_lem :
    (tid : ℕ) (c : ChannelId) (own : ℕ) (d : TransactionData) (p : ProxyServer)
    → get p.guids.channel_to_outgoing (c, own) ≡ none
    → ((state_of (on_transaction_data tid c own d p)).guids ≡ numbered (c, own) p.guids)
      × IsForwarded (p.guids.transaction_ix + 1) p.upstream d (on_transaction_data tid c own d p)
unfolding outgoing_guid numbered
begun_lem tid c own d p e =
    let number : outgoing_guid c own p.guids
        ≡ (numbered (c, own) p.guids, p.guids.transaction_ix + 1) =
      rw (outgoing_guid, e) refl in
    subst
      (λ x.
        ((state_of (on_transaction_data tid c own d p)).guids ≡ x.0)
        × IsForwarded (x.1) p.upstream d (on_transaction_data tid c own d p))
      number (on_transaction_data_lem tid c own d p)

-- The completion of an open transaction.
complete_lem :
    (c : ChannelId) (as_of : ℤ) (own : ℕ) (no_log : Bool) (n : ℕ) (q : ProxyServer)
    → get q.guids.channel_to_outgoing (c, own) ≡ some n
    → ((on_complete_transaction c as_of own no_log q).guids.outgoing_to_channel
        ≡ q.guids.outgoing_to_channel)
      × ((on_complete_transaction c as_of own no_log q).upstream
          ≡ q.upstream ++ complete_transaction as_of n no_log ∷ [])
unfolding on_complete_transaction send_upstream
complete_lem c as_of own no_log n q e = rw (on_complete_transaction, e) (refl, refl)

result_lem :
    (n : ℕ) (c : ChannelId) (own : ℕ) (success : Bool) (bad_key : Option BadKey)
    (is_exception : Bool) (q : ProxyServer)
    → get q.guids.outgoing_to_channel n ≡ some (c, own)
    → (on_transaction_result n success bad_key is_exception q).subscription_state.sent
      ≡ q.subscription_state.sent ++ (c, transaction_result own success bad_key is_exception) ∷ []
unfolding on_transaction_result send_down
result_lem n c own success bad_key is_exception q e = rw (on_transaction_result, e) refl

result-gone :
    (n : ℕ) (success : Bool) (bad_key : Option BadKey) (is_exception : Bool) (q : ProxyServer)
    → get q.guids.outgoing_to_channel n ≡ none
    → on_transaction_result n success bad_key is_exception q ≡ q
unfolding on_transaction_result
result-gone n success bad_key is_exception q e = rw (on_transaction_result, e) refl

get-result :
    (n : ℕ) (success : Bool) (bad_key : Option BadKey) (is_exception : Bool) (q : ProxyServer)
    → get (on_transaction_result n success bad_key is_exception q).guids.outgoing_to_channel n
      ≡ none
unfolding on_transaction_result send_down
get-result n success bad_key is_exception q =
    elim (Option-cases (get q.guids.outgoing_to_channel n)) [
      | inl e ↦ rw (on_transaction_result, e) e
      | inr (k, e) ↦
          rw (on_transaction_result, e) (ground (arith, get-delete q.guids.outgoing_to_channel n n))
    ]

module _ (set_pop : SetPop) (to_identity : IndexValue → Option ObjectId)
    (uuid : ProxyServer → String) (convert : Conversion) (true_bytes : Bytes)
    (get_of_none : Dict ObjectId Bytes → Option (Option Bytes)) (token : String) where
  number-fresh :
      (p : ProxyServer)
      → Reaches set_pop to_identity uuid convert true_bytes get_of_none token p
      → get p.guids.outgoing_to_channel (p.guids.transaction_ix + 1) ≡ none
  unfolding IsSound IsNumbered
  number-fresh p r =
      let sound =
        Reaches-IsSound set_pop to_identity uuid convert true_bytes get_of_none token p r in
      elim (Option-cases (get p.guids.outgoing_to_channel (p.guids.transaction_ix + 1))) [
        | inl e ↦ e
        | inr (k, e) ↦ absurd (omega (arith, sound.1.1 (p.guids.transaction_ix + 1) k e))
      ]

  -- In every proxy that the calls lead to, let a client begin a transaction, with a `TransactionData` under its
  -- own guid, and complete it. It gets a number that no transaction which waits for a verdict has,
  -- and all those keep theirs; the data, unless the increase of the client's subscriptions raises,
  -- and then `CompleteTransaction` go to the main server under this number; the main server's
  -- verdict on it is sent to this client under the client's own guid, and nothing else is sent; a
  -- second verdict changes nothing.
  pub transaction_result-own :
      (p : ProxyServer) (tid : ℕ) (c : ChannelId) (own : ℕ) (d : TransactionData) (as_of : ℤ)
      (no_log success : Bool) (bad_key : Option BadKey) (is_exception : Bool)
      → Reaches set_pop to_identity uuid convert true_bytes get_of_none token p
      → get p.guids.channel_to_outgoing (c, own) ≡ none
      → (n : ℕ) × (get p.guids.outgoing_to_channel n ≡ none)
        × ((m : ℕ) (k : ChannelId × ℕ)
            → get p.guids.outgoing_to_channel m ≡ some k
            → get (completed tid c own d as_of no_log p).guids.outgoing_to_channel m ≡ some k)
        × IsForwarded n p.upstream d (on_transaction_data tid c own d p)
        × ((completed tid c own d as_of no_log p).upstream
            ≡ (state_of (on_transaction_data tid c own d p)).upstream
              ++ complete_transaction as_of n no_log ∷ [])
        × ((verdict n success bad_key is_exception
              (completed tid c own d as_of no_log p)).subscription_state.sent
            ≡ (completed tid c own d as_of no_log p).subscription_state.sent
              ++ (c, transaction_result own success bad_key is_exception) ∷ [])
        × (verdict n success bad_key is_exception
              (verdict n success bad_key is_exception (completed tid c own d as_of no_log p))
            ≡ verdict n success bad_key is_exception (completed tid c own d as_of no_log p))
  unfolding completed numbered
  transaction_result-own p tid c own d as_of no_log success bad_key is_exception r e =
      let n = p.guids.transaction_ix + 1 in
      let fresh = number-fresh p r in
      let begun = begun_lem tid c own d p e in
      let q = state_of (on_transaction_data tid c own d p) in
      let listed : get q.guids.outgoing_to_channel n ≡ some (c, own) =
        ap (λ g. get g.outgoing_to_channel n) (begun.0)
        ∙ get-insert_self p.guids.outgoing_to_channel n (c, own) in
      let opened : get q.guids.channel_to_outgoing (c, own) ≡ some n =
        ap (λ g. get g.channel_to_outgoing (c, own)) (begun.0)
        ∙ get-insert_self p.guids.channel_to_outgoing (c, own) n in
      let done = complete_lem c as_of own no_log n q opened in
      (
        n,
        fresh,
        (λ m k old.
            ap (λ d. get d m) (done.0)
            ∙ ap (λ g. get g.outgoing_to_channel m) (begun.0)
            ∙ ground (arith, get-insert p.guids.outgoing_to_channel n m (c, own), fresh, old)),
        begun.1,
        done.1,
        result_lem n c own success bad_key is_exception _ (ap (λ d. get d n) (done.0) ∙ listed),
        result-gone n success bad_key is_exception _ (get-result n success bad_key is_exception _),
      )
