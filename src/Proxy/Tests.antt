-- ===== src/Proxy/Tests.antt =====
-- A proxy with one client, and runs of its operations.
use object_database.Prelude.{
  ◌≡◌, ◌||◌, Bool-cases, beq, inl, inr, string_eq, refl, String, true, false, Option, none, some,
  List, [], ◌∷◌, ◌++◌, arith, nat_eq, list_eq, pair_eq, subst, ℕ_discrete, list_discrete,
  string_discrete, pair_discrete,
}
use object_database.Prelude.Exec.{state_of}
use object_database.Collections.Dict.{get, insert, delete}
use object_database.Collections.Set.{member, add, discard}
use object_database.Schema.{Bytes, ObjectId, IndexValue, IndexId}
use object_database.Server.Messages.{
  Writes, SetChanges, TransactionData, initialize, authenticate, transaction_data,
  complete_transaction, transaction_result, flush, subscription_eq,
}
use object_database.Schema.{TypeDefinition}
use object_database.Server.Messages.{SchemaDefinition}
use object_database.Proxy.Schemas.{merge_schema_definitions, same_schema}
use object_database.Proxy.Schemas.Merge.{
  IsKnown, Covered, has_field, has_index, merge-union, same_schema-merge,
}
use object_database.Server.State.{ChannelId}
use object_database.Proxy.State.{SubscriptionState, init, at}
use object_database.Proxy.Departure.{SetPop, drop_connection}
use object_database.Proxy.Subscriptions.{Conversion, join_fields}
use object_database.Proxy.Broadcast.{handle_transaction}
use object_database.Proxy.Transactions.{Broadcast}
use object_database.Proxy.Values.{apply_writes, apply_removes, apply_add}
use object_database.Proxy.Values.Overwrites.{snapshot, overwrite, handle_transaction-overwrite}
use object_database.Proxy.Values.Index.{
  IsIndexed, FitsRemoves, FitsAdds, can_take, is_value, apply_add-IsIndexed,
  handle_transaction-IsIndexed,
}
use object_database.Proxy.Registry.{IsMirrored, IsRegistered, join_fields-IsRegistered}
use object_database.Proxy.Departure.{drop_oids}
use object_database.Proxy.Subscriptions.{set_oids}
use object_database.Proxy.Registry.Stale.{drop_oids-set_oids}
use object_database.Proxy.Registry.Drop.{HasLeft, drop_connection-HasLeft}
use object_database.Proxy.Server.{ProxyServer, new_proxy, add_connection}
use object_database.Proxy.Server.Replies.{on_flush_response, handle_server_message}
use object_database.Proxy.Server.Sound.{IsSound}
use object_database.Proxy.Subscriptions.{no_longer_pending}
use object_database.Proxy.State.{SubscriptionKey}
use object_database.Server.Messages.{ClientToServer}
use object_database.Prelude.Exec.{Exec, ok}
use object_database.Proxy.Server.Requests.{on_flush, on_transaction_data}
use object_database.Proxy.Server.Held.{hold_all, flush_response-flush}
use object_database.Server.Messages.{flush_response, heartbeat}
use object_database.Prelude.{ℕ}
use object_database.Prelude.Int.{negsuc}
use object_database.Proxy.Server.Dispatch.{handle_client_message}
use object_database.Proxy.Server.Reachable.{
  Event, connects, client_sends, server_sends, step, Reaches, starts, goes_on, Reaches-IsSound,
}
use object_database.Proxy.Server.Answers.{IsForwarded, completed, verdict, transaction_result-own}
use object_database.Proxy.Server.Strangers.{OnlyLeaves, is_login, handle_client_message-OnlyLeaves}

-- Object 7 has the value [5] of the index 1, and goes to [6].
abbrev old_value : IndexId
old_value = record { field_id = 1; index_value = 5 ∷ [] }

abbrev new_value : IndexId
new_value = record { field_id = 1; index_value = 6 ∷ [] }

abbrev writes : Writes
writes = (record { obj_id = 7; field_id = 2; is_index_value = false }, some (1 ∷ [])) ∷ []

abbrev removes : SetChanges
removes = (old_value, 7 ∷ []) ∷ []

abbrev adds : SetChanges
adds = (new_value, 7 ∷ []) ∷ []

abbrev placed : SubscriptionState
unfolding init apply_add
placed = record (init) { values = apply_add old_value (7 ∷ []) init.values }

handle_transaction-overwrite_example :
    snapshot (state_of (handle_transaction writes adds removes 3 placed)).values
    ≡ overwrite writes (snapshot placed.values)
handle_transaction-overwrite_example = handle_transaction-overwrite writes adds removes 3 placed

placed-IsIndexed : IsIndexed placed.values
unfolding placed init IsIndexed can_take at get member
placed-IsIndexed =
    apply_add-IsIndexed old_value (7 ∷ []) init.values (λ i m. refl) (λ f value i. refl)

seven : (i : ObjectId) → member (7 ∷ []) i ≡ true → 7 ≡ i
unfolding member
seven i m = ground arith

fits_removes : FitsRemoves removes (apply_writes writes placed.values)
unfolding FitsRemoves apply_writes placed init apply_add at get insert is_value ℕ_discrete
    list_discrete
fits_removes = (
  (λ i m.
      subst
        (λ j.
          is_value (get (at (apply_writes writes placed.values).index_values 1) j) (5 ∷ []) ≡ true)
        (seven i m) refl),
  tt,
)

fits_adds : FitsAdds adds (apply_removes removes (apply_writes writes placed.values))
unfolding FitsAdds apply_removes apply_writes placed init apply_add at get insert delete can_take
    ℕ_discrete
fits_adds = (
  (λ i m.
      subst
        (λ j.
          can_take
            (get (at (apply_removes removes (apply_writes writes placed.values)).index_values 1) j)
            (6 ∷ [])
          ≡ true)
        (seven i m) refl),
  tt,
)

handle_transaction-IsIndexed_example :
    IsIndexed (state_of (handle_transaction writes adds removes 3 placed)).values
handle_transaction-IsIndexed_example =
    handle_transaction-IsIndexed writes adds removes 3 placed placed-IsIndexed fits_removes
      fits_adds

abbrev set_pop : SetPop
unfolding discard
set_pop s e = some (discard e s)

-- Channel 1 is subscribed to the fields 0 and 2.
abbrev subscribed : SubscriptionState
unfolding init join_fields
subscribed = record (init) { subscribers = join_fields 1 true (0 ∷ 2 ∷ []) init.subscribers }

subscribed-IsRegistered : IsRegistered subscribed.subscribers
unfolding subscribed init IsRegistered IsMirrored at get member
subscribed-IsRegistered =
    join_fields-IsRegistered 1 true (0 ∷ 2 ∷ []) init.subscribers ((λ k c. refl), (λ k c. refl))

drop_connection-HasLeft_example :
    HasLeft 1 (state_of (drop_connection set_pop 1 subscribed)).subscribers
drop_connection-HasLeft_example =
    drop_connection-HasLeft set_pop 1 subscribed subscribed-IsRegistered

abbrev to_identity : IndexValue → Option ObjectId
to_identity b = none

abbrev uuid : ProxyServer → String
uuid p = "u"

abbrev convert : Conversion
convert msgs = none

abbrev get_of_none : List (ObjectId × Bytes) → Option (Option Bytes)
get_of_none d = some none

abbrev after : Event → ProxyServer → ProxyServer
unfolding step
after e p = state_of (step set_pop to_identity uuid convert (1 ∷ []) get_of_none e p)

abbrev nothing_written : TransactionData
nothing_written = record {
  writes = [];
  prerequisites = [];
  set_adds = [];
  set_removes = [];
  key_versions = [];
  index_versions = [];
}

-- Channel 1 connects and logs in, and sends a transaction under its guid 9; channel 2 connects.
abbrev logged_in : ProxyServer
unfolding new_proxy after
logged_in = after (client_sends 1 (authenticate "t")) (
    after (server_sends (initialize 4 11 12))
      (after (connects 2) (after (connects 1) (new_proxy "t"))))

abbrev busy : ProxyServer
unfolding after
busy = after (client_sends 1 (transaction_data 9 nothing_written)) logged_in

abbrev Reachable : ProxyServer → Type 0
Reachable p = Reaches set_pop to_identity uuid convert (1 ∷ []) get_of_none "t" p

logged_in-Reachable : Reachable logged_in
unfolding logged_in after
logged_in-Reachable = goes_on (client_sends 1 (authenticate "t")) (
    goes_on (server_sends (initialize 4 11 12))
      (goes_on (connects 2) (goes_on (connects 1) starts)))

busy-Reachable : Reachable busy
unfolding busy after
busy-Reachable = goes_on (client_sends 1 (transaction_data 9 nothing_written)) logged_in-Reachable

Reaches-IsSound_example : IsSound busy
Reaches-IsSound_example =
    Reaches-IsSound set_pop to_identity uuid convert (1 ∷ []) get_of_none "t" busy busy-Reachable

unopened : get logged_in.guids.channel_to_outgoing (1, 9) ≡ none
unfolding logged_in after handle_client_message handle_server_message add_connection add ℕ_discrete
    string_discrete insert pair_discrete get member
unopened = refl

-- Channel 1 begins transaction 9, and completes it as of -1.
abbrev committed : ProxyServer
unfolding completed
committed = completed 4 1 9 nothing_written (negsuc 0) false logged_in

transaction_result-own_example :
    (n : ℕ) × (get logged_in.guids.outgoing_to_channel n ≡ none)
    × ((m : ℕ) (k : ChannelId × ℕ)
        → get logged_in.guids.outgoing_to_channel m ≡ some k
        → get committed.guids.outgoing_to_channel m ≡ some k)
    × IsForwarded n logged_in.upstream nothing_written
        (on_transaction_data 4 1 9 nothing_written logged_in)
    × (committed.upstream
        ≡ (state_of (on_transaction_data 4 1 9 nothing_written logged_in)).upstream
          ++ complete_transaction (negsuc 0) n false ∷ [])
    × ((verdict n true none false committed).subscription_state.sent
        ≡ committed.subscription_state.sent ++ (1, transaction_result 9 true none false) ∷ [])
    × (verdict n true none false (verdict n true none false committed)
        ≡ verdict n true none false committed)
unfolding committed
transaction_result-own_example =
    transaction_result-own set_pop to_identity uuid convert (1 ∷ []) get_of_none "t" logged_in 4 1 9
      nothing_written (negsuc 0) false true none false logged_in-Reachable unopened

stranger : member busy.downstream.authenticated 2 ≡ false
unfolding busy logged_in after handle_client_message handle_server_message add_connection add
    ℕ_discrete string_discrete insert pair_discrete get member
stranger = refl

handle_client_message-OnlyLeaves_example :
    OnlyLeaves busy (state_of (handle_client_message set_pop to_identity uuid 2 (flush 5) busy))
unfolding is_login
handle_client_message-OnlyLeaves_example =
    handle_client_message-OnlyLeaves set_pop to_identity uuid 2 (flush 5) busy stranger refl

abbrev old_book : TypeDefinition
old_book = record { fields = "title" ∷ "author" ∷ []; indices = "title" ∷ [] }

abbrev small_book : TypeDefinition
small_book = record { fields = "author" ∷ []; indices = "title" ∷ [] }

abbrev old_schema : SchemaDefinition
old_schema = ("Book", old_book) ∷ []

abbrev small_schema : SchemaDefinition
small_schema = ("Book", small_book) ∷ []

merge-union_example :
    (has_field (merge_schema_definitions small_schema old_schema) "Book" "title"
      ≡ (has_field small_schema "Book" "title" || has_field old_schema "Book" "title"))
    × (has_index (merge_schema_definitions small_schema old_schema) "Book" "title"
        ≡ (has_index small_schema "Book" "title" || has_index old_schema "Book" "title"))
unfolding get
merge-union_example = merge-union small_schema old_schema "Book" "title" (refl, tt)

small-Covered : Covered small_book old_book
unfolding member
small-Covered = ((λ y m. ground arith), (λ y m. m))

get-small : (t : String) (new : TypeDefinition) → get small_schema t ≡ some new → small_book ≡ new
unfolding get
get-small t new e = ground arith

small-IsKnown : IsKnown small_schema old_schema
unfolding get member
small-IsKnown t new e = elim (Bool-cases (beq "Book" t)) [
  | inl b ↦ (old_book, rw b refl, subst (λ d. Covered d old_book) (get-small t new e) small-Covered)
  | inr b ↦ absurd (ground (arith, b, e))
]

same_schema-merge_example :
    same_schema (merge_schema_definitions old_schema small_schema) old_schema ≡ true
unfolding get
same_schema-merge_example =
    same_schema-merge old_schema small_schema (refl, tt) (refl, tt) small-IsKnown

flush_response-flush_example :
    (n : ℕ) × (get busy.guids.outgoing_flush n ≡ none)
    × ((on_flush 1 5 busy).upstream ≡ busy.upstream ++ flush n ∷ [])
    × ((m : ℕ) (k : ChannelId × ℕ)
        → get busy.guids.outgoing_flush m ≡ some k
        → get (on_flush 1 5 busy).guids.outgoing_flush m ≡ some k)
    × ((on_flush_response n (on_flush 1 5 busy)).subscription_state.sent
        ≡ busy.subscription_state.sent ++ (1, flush_response 5) ∷ [])
    × (on_flush_response n (on_flush_response n (on_flush 1 5 busy))
        ≡ on_flush_response n (on_flush 1 5 busy))
flush_response-flush_example =
    flush_response-flush set_pop to_identity uuid convert (1 ∷ []) get_of_none "t" 1 5 busy
      busy-Reachable

-- Channel 1 waits for a subscription.
abbrev books : SubscriptionKey
books = record {
  schema = "library";
  typename = "Book";
  fieldname_and_value = none;
  is_lazy = false;
}

abbrev waiting : ProxyServer
unfolding new_proxy init
waiting = record (new_proxy "t") {
  subscription_state = record (init) {
    pending = record (init.pending) { channel_to_pending_subscriptions = (1, books ∷ []) ∷ [] };
  };
}

abbrev run : ClientToServer → Exec ProxyServer (Unit {0})
run msg p = ok tt p

abbrev completed_state : SubscriptionState
unfolding waiting
completed_state = record (waiting.subscription_state) {
  pending = state_of (
      no_longer_pending 1 books
        (hold_all run 1 (flush 5 ∷ heartbeat ∷ []) waiting).subscription_state.pending);
}

abbrev write_both : Broadcast
write_both = record { writes = writes; set_adds = adds; triggered = []; increased = [] }

drop_oids-set_oids_example :
    member
      (at
        (state_of (
          drop_oids 1 (
            set_oids 1 (8 ∷ []) (set_oids 1 (7 ∷ []) init.subscribers)))).oid_to_subscribed_channels
        7)
      1
    ≡ true
unfolding member ℕ_discrete
drop_oids-set_oids_example = drop_oids-set_oids 1 (7 ∷ []) (8 ∷ []) 7 init.subscribers refl refl
