-- ===== src/System/Order/Client.antt =====
-- What the client of the provider does with calls, and their order.
use webfuse.Base.{
  Option-cases, List-cases, inl, inr, ℕ, suc, ◌≤◌, ◌≡◌, ◌≢◌, refl, sym, subst, List, [], ◌∷◌, ◌++◌,
  map, Bool, Option, none, some, arith, length, length-append,
}
use webfuse.Flags.Platform.{Platform}
use webfuse.Message.Bytes.{Bytes}
use webfuse.Message.Writer.{Writer, get_data}
use webfuse.Message.Reader.{new_reader}
use webfuse.Fs.{FilesystemI}
use webfuse.Provider.{on_message}
use webfuse.Server.Delivery.{joined}
use webfuse.Client
use webfuse.Client.Order
use webfuse.Client.{UserData, run_client, client_callback, client_writeable}
use webfuse.Server.Authentication.{Header}
use webfuse.System.World.{Call, call_bytes, World, perform, reply}
use webfuse.System.Flow.{same_parts, not_empty, map_shift, run_client-arrivals, run_client-state}
use webfuse.System.Order.Performed.{perform-none, perform-some}
use webfuse.System.Order.{IsOrdered}

write_front-one :
    (q : Platform) (wsi : ℕ) (c : UserData) (response : Writer) (rest : List Writer)
    → c.requests ≡ response ∷ rest
    → (Order.sent (Client.write_front q wsi c.requests c).0 ≡ get_data q response ∷ [])
      × ((Client.write_front q wsi c.requests c).1 ≡ record c { requests = rest })
unfolding Client.write_front Client.more_to_write Order.sent
write_front-one q wsi c response [] e = (rw (e) refl, rw (e) refl)
write_front-one q wsi c response (other ∷ rest) e = (rw (e) refl, rw (e) refl)

enqueue-sizes :
    (wsi : ℕ) (response : Option Writer) (c : UserData)
    → length (Client.enqueue wsi response (record c { current_message = [] })).1.requests
      ≤ suc (length c.requests)
unfolding Client.enqueue
enqueue-sizes wsi none c = omega arith
enqueue-sizes wsi (some response) c = omega (arith, length-append c.requests (response ∷ []))

module _ (p q : Platform) {S : Type 0} (fs : FilesystemI S)
    (copy_header : ℕ → Header → Option Bytes) (authenticate : Bytes → Bytes → Bool)
    (wsi_s wsi_c : ℕ) (state : S) where
  performed-run :
      (fragments : List Bytes) (last : Bytes) (up : List Bytes) (w : World S) (call : Call)
      (waiting : List Call)
      → IsOrdered p q fs wsi_s state w
      → up ++ map (get_data p) w.service.requests ≡ map (call_bytes p) waiting
      → w.waiting ≡ call ∷ waiting
      → joined fragments last ≡ call_bytes p call
      → perform p q fs copy_header authenticate wsi_s wsi_c fragments last up w ≡ (
          let out = on_message q fs (new_reader (call_bytes p call)) w.provider in
          record w {
            up = up;
            client = (Client.enqueue wsi_c out.0 (record (w.client) { current_message = [] })).1;
            provider = out.1;
            performed = w.performed ++ call ∷ [];
            waiting = waiting;
          })
  unfolding perform
  performed-run fragments last up w call waiting h requests e whole =
      let ran = run_client-arrivals q (on_message q fs) wsi_c fragments last w.client w.provider in
      let left = run_client-state q (on_message q fs) wsi_c fragments last w.client w.provider in
      rw (e, ran, left, h.client_message, whole) refl

  perform-front :
      (fragments : List Bytes) (last : Bytes) (up : List Bytes) (w : World S) (call : Call)
      (waiting : List Call)
      → IsOrdered p q fs wsi_s state w
      → up ++ map (get_data p) w.service.requests ≡ map (call_bytes p) waiting
      → w.waiting ≡ call ∷ waiting
      → joined fragments last ≡ call_bytes p call
      → IsOrdered p q fs wsi_s state
          (perform p q fs copy_header authenticate wsi_s wsi_c fragments last up w)
  unfolding Client.enqueue
  perform-front fragments last up w call waiting h requests e whole =
      let s' = (on_message q fs (new_reader (call_bytes p call)) w.provider).1 in
      let cleared = record (w.client) { current_message = [] } in
      let after : UserData → World S = λ c. record w {
        up = up;
        client = c;
        provider = s';
        performed = w.performed ++ call ∷ [];
        waiting = waiting;
      } in
      subst (IsOrdered p q fs wsi_s state)
        (sym (performed-run fragments last up w call waiting h requests e whole))
        (elim (Option-cases (on_message q fs (new_reader (call_bytes p call)) w.provider).0) [
          | inl thrown ↦
              subst
                (λ (out : Option Writer).
                  IsOrdered p q fs wsi_s state (after (Client.enqueue wsi_c out cleared).1))
                (sym thrown)
                (perform-none p q fs copy_header authenticate wsi_s wsi_c state w up call waiting
                  cleared s' h refl refl requests e (rw (thrown) refl))
          | inr (response, answered) ↦
              subst
                (λ (out : Option Writer).
                  IsOrdered p q fs wsi_s state (after (Client.enqueue wsi_c out cleared).1))
                (sym answered)
                (perform-some p q fs copy_header authenticate wsi_s wsi_c state w up call waiting
                  (record cleared { requests = w.client.requests ++ response ∷ [] }) response s' h
                  refl refl requests e (rw (answered) refl))
        ])

  pub perform-IsOrdered :
      (fragments : List Bytes) (last : Bytes) (up : List Bytes) (w : World S)
      → w.up ≡ joined fragments last ∷ up
      → IsOrdered p q fs wsi_s state w
      → IsOrdered p q fs wsi_s state
          (perform p q fs copy_header authenticate wsi_s wsi_c fragments last up w)
  perform-IsOrdered fragments last up w arrived h = elim (List-cases w.waiting) [
    | inl e ↦ absurd (not_empty _ _ (rw (e, arrived) at h.requests))
    | inr (call, (waiting, e)) ↦
        let both = same_parts _ _ _ _ (rw (e, arrived) at h.requests) in
        perform-front fragments last up w call waiting h both.1 e both.0
  ]

  pub reply-IsOrdered :
      (w : World S)
      → w.client.requests ≢ []
      → IsOrdered p q fs wsi_s state w
      → IsOrdered p q fs wsi_s state (reply p q fs copy_header authenticate wsi_s wsi_c w)
  unfolding reply client_callback
  reply-IsOrdered w some_response h = elim (List-cases w.client.requests) [
    | inl e ↦ absurd (some_response e)
    | inr (response, (rest, e)) ↦
        let (bytes, after) = write_front-one q wsi_c w.client response rest e in
        subst
          (λ (c : UserData). IsOrdered p q fs wsi_s state (record w {
            client = c;
            down = w.down ++ Order.sent (Client.write_front q wsi_c w.client.requests w.client).0;
          }))
          (sym after)
          (subst
            (λ (more : List Bytes).
              IsOrdered p q fs wsi_s state (record w {
                client = record (w.client) { requests = rest };
                down = w.down ++ more;
              }))
            (sym bytes)
            (record {
              authenticated = h.authenticated;
              running = h.running;
              connected = h.connected;
              short_id = h.short_id;
              no_message = h.no_message;
              client_message = h.client_message;
              flying = h.flying;
              requests = h.requests;
              responses = map_shift (get_data q) w.down response rest _ (rw (e) at h.responses);
              live = h.live;
              bounded = h.bounded;
              provider = h.provider;
              answers = h.answers;
            }))
  ]

  pub perform-sizes :
      (fragments : List Bytes) (last : Bytes) (up : List Bytes) (w : World S)
      → w.up ≡ joined fragments last ∷ up
      → (let w' = perform p q fs copy_header authenticate wsi_s wsi_c fragments last up w in
          (length w.up ≡ suc (length w'.up))
          × (length w'.client.requests ≤ suc (length w.client.requests)))
  unfolding perform Client.enqueue
  perform-sizes fragments last up w arrived = (
    rw (arrived) refl,
    rw (run_client-arrivals q (on_message q fs) wsi_c fragments last w.client w.provider) (
        enqueue-sizes wsi_c
          (on_message q fs (new_reader (w.client.current_message ++ joined fragments last))
            w.provider).0
          w.client),
  )

  pub reply-sizes :
      (w : World S)
      → w.client.requests ≢ []
      → (let w' = reply p q fs copy_header authenticate wsi_s wsi_c w in
          (length w.client.requests ≡ suc (length w'.client.requests))
          × (length w'.down ≡ suc (length w.down)))
  unfolding reply client_callback
  reply-sizes w some_response = elim (List-cases w.client.requests) [
    | inl e ↦ absurd (some_response e)
    | inr (response, (rest, e)) ↦
        let (bytes, after) = write_front-one q wsi_c w.client response rest e in
        (
          rw (after, e) refl,
          rw (bytes) (omega (arith, length-append w.down (get_data q response ∷ []))),
        )
  ]
