-- ===== src/Client/Order.antt =====
-- What a client sends, and in which order.
use mathlib.Core.List.{map-append}
use webfuse.Base.{
  ℕ, ◌≡◌, refl, ap, List, [], ◌∷◌, ◌++◌, map, append_assoc, append-nil, true, false, Option, none,
  some,
}
use webfuse.Flags.Platform.{Platform}
use webfuse.Message.Bytes.{Bytes}
use webfuse.Message.Writer.{Writer, get_data}
use webfuse.Message.Reader.{new_reader}
use webfuse.Client.{
  ClientHandler, UserData, Effect, connection_listener, callback_on_writable, lws_write, Reason,
  client_established, client_connection_error, client_closed, client_receive, client_writeable,
  enqueue, more_to_write, write_front, receive, answer, client_callback, run_client,
}

-- The messages that the effects send.
unfoldable pub sent : List Effect → List Bytes
sent [] = []
sent (connection_listener connected ∷ effects) = sent effects
sent (callback_on_writable wsi ∷ effects) = sent effects
sent (lws_write wsi bytes ∷ effects) = bytes ∷ sent effects

pub sent-append : (xs ys : List Effect) → sent (xs ++ ys) ≡ sent xs ++ sent ys
unfolding sent
sent-append [] ys = refl
sent-append (connection_listener connected ∷ xs) ys = sent-append xs ys
sent-append (callback_on_writable wsi ∷ xs) ys = sent-append xs ys
sent-append (lws_write wsi bytes ∷ xs) ys = ap (λ more. bytes ∷ more) (sent-append xs ys)

-- A connection that is not lost.
abbrev pub IsKept : List Reason → Type 0
IsKept [] = Unit
IsKept (client_connection_error ∷ reasons) = ⊥
IsKept (client_closed ∷ reasons) = ⊥
IsKept (client_established ∷ reasons) = IsKept reasons
IsKept (client_receive fragment is_final ∷ reasons) = IsKept reasons
IsKept (client_writeable ∷ reasons) = IsKept reasons

abbrev pub response_list : Option Writer → List Writer
response_list none = []
response_list (some writer) = writer ∷ []

module _ (p : Platform) {S : Type 0} (handler : ClientHandler S) where
  -- The responses that the handler makes of one reason, and of a run.
  unfoldable pub made : Reason → UserData → S → List Writer
  made (client_receive fragment true) c s =
      response_list (handler (new_reader (c.current_message ++ fragment)) s).0
  made _ c s = []

  unfoldable pub all_made : ℕ → List Reason → UserData → S → List Writer
  all_made wsi [] c s = []
  all_made wsi (reason ∷ reasons) c s =
      let after = client_callback p handler wsi reason c s in
      made reason c s ++ all_made wsi reasons after.0.1 after.1

  -- What is sent or waits was made or waited before, in this order.
  unfoldable pub Balanced : List Writer → UserData → List Effect × UserData → Type 0
  Balanced made c after =
      sent after.0 ++ map (get_data p) after.1.requests ≡ map (get_data p) (c.requests ++ made)

  enqueue-Balanced :
      (wsi : ℕ) (o : Option Writer) (c : UserData) → Balanced (response_list o) c (enqueue wsi o c)
  unfolding Balanced enqueue sent
  enqueue-Balanced wsi none c = rw (append-nil c.requests) refl
  enqueue-Balanced wsi (some writer) c = refl

  write_front-Balanced :
      (wsi : ℕ) (requests : List Writer) (c : UserData)
      → c.requests ≡ requests
      → Balanced [] c (write_front p wsi requests c)
  unfolding Balanced write_front more_to_write sent
  write_front-Balanced wsi [] c e = rw (append-nil c.requests) refl
  write_front-Balanced wsi (writer ∷ []) c e = rw (append-nil c.requests, e) refl
  write_front-Balanced wsi (writer ∷ other ∷ rest) c e = rw (append-nil c.requests, e) refl

  callback-Balanced :
      (wsi : ℕ) (reason : Reason) (c : UserData) (s : S)
      → IsKept (reason ∷ [])
      → Balanced (made reason c s) c (client_callback p handler wsi reason c s).0
  unfolding client_callback made receive answer Balanced sent
  callback-Balanced wsi client_established c s h = rw (append-nil c.requests) refl
  callback-Balanced wsi client_connection_error c s h = elim h [ ]
  callback-Balanced wsi client_closed c s h = elim h [ ]
  callback-Balanced wsi (client_receive fragment true) c s h =
      enqueue-Balanced wsi (handler (new_reader (c.current_message ++ fragment)) s).0
        (record c { current_message = [] })
  callback-Balanced wsi (client_receive fragment false) c s h = rw (append-nil c.requests) refl
  callback-Balanced wsi client_writeable c s h = write_front-Balanced wsi c.requests c refl

  IsKept-head :
      (reason : Reason) (reasons : List Reason)
      → IsKept (reason ∷ reasons)
      → IsKept (reason ∷ []) × IsKept reasons
  IsKept-head client_established reasons h = (record {}, h)
  IsKept-head client_connection_error reasons h = elim h [ ]
  IsKept-head client_closed reasons h = elim h [ ]
  IsKept-head (client_receive fragment is_final) reasons h = (record {}, h)
  IsKept-head client_writeable reasons h = (record {}, h)

  -- As long as the connection of a client is not lost, whatever callbacks come: the messages that
  -- it has sent, and then those that still wait, are the ones that waited before and the
  -- responses that the handler made, in their order, none lost or doubled.
  pub run_client-sent :
      (wsi : ℕ) (reasons : List Reason) (c : UserData) (s : S)
      → IsKept reasons
      → sent (run_client p handler wsi reasons c s).0.0
          ++ map (get_data p) (run_client p handler wsi reasons c s).0.1.requests
        ≡ map (get_data p) (c.requests ++ all_made wsi reasons c s)
  unfolding run_client all_made sent Balanced
  run_client-sent wsi [] c s h = rw (append-nil c.requests) refl
  run_client-sent wsi (reason ∷ reasons) c s h =
      let after = client_callback p handler wsi reason c s in
      let later = all_made wsi reasons after.0.1 after.1 in
      let rest = run_client p handler wsi reasons after.0.1 after.1 in
      let now : Balanced (made reason c s) c after.0 =
        callback-Balanced wsi reason c s (IsKept-head reason reasons h).0 in
      rw
        (
          sent-append after.0.0 rest.0.0,
          append_assoc (sent after.0.0) (sent rest.0.0) (map (get_data p) rest.0.1.requests),
          run_client-sent wsi reasons after.0.1 after.1 (IsKept-head reason reasons h).1,
          map-append (get_data p) after.0.1.requests later,
          ← append_assoc (sent after.0.0) (map (get_data p) after.0.1.requests)
              (map (get_data p) later),
          now,
          ← map-append (get_data p) (c.requests ++ made reason c s) later,
          append_assoc c.requests (made reason c s) later,
        )
        refl
