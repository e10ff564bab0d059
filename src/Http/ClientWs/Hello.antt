-- ===== src/Http/ClientWs/Hello.antt =====
-- The first frame of an app's connection: who is let in.
use pi_remote.Prelude.{
  ◌≡◌, refl, ap, ◌∙◌, ◌⊎◌, inl, inr, String, str_eq, eq_iff, Bool, true, false, Option, none, some,
  lookup, string_eq, Bool-cases, Option-cases,
}
use pi_remote.Sessions.Channels.{Bytes}
use pi_remote.Push as Push
use pi_remote.Http.DaemonWs.{Received, text, other, failed}
use pi_remote.Http.AppFrames.{AppDecoder, AppFrame, ClientHello}
use pi_remote.Http.ClientWs.{Hub}
use pi_remote.Http.ClientWs.Serve.{Refusal, admit, accept_hello, accept_head, accept}

module _ (dec : AppDecoder) (app : AppFrame → Bytes) where
  -- An authenticated connection whose first frame is a `client_hello` of a registered client.
  pub record IsHello (authorised : Bool) (first : Received) (h : Hub) (client_id : String)
      : Type 0 where
    pub bytes : Bytes
    pub hello : ClientHello
    pub client : Push.Client
    pub signed : authorised ≡ true
    pub is_text : first ≡ text bytes
    pub has_type : dec.head bytes ≡ some "client_hello"
    pub decodes : dec.client_hello bytes ≡ some hello
    pub names : hello.client_id ≡ client_id
    pub known : lookup client_id h.clients ≡ some client

  -- The connection is let in or refused, and then nothing has changed.
  abbrev pub Decided : Bool → Received → Hub → Hub × Option Refusal → Type 0
  Decided authorised first h r =
      ((client_id : String) × IsHello authorised first h client_id
        × (r ≡ (admit client_id h, none)))
      ⊎ (((client_id : String) → ¬ IsHello authorised first h client_id)
          × (x : Refusal) × (r ≡ (h, some x)))

  at_client :
      (b : Bytes) (h : Hub) (hello : ClientHello)
      → dec.head b ≡ some "client_hello"
      → dec.client_hello b ≡ some hello
      → Decided true (text b) h (accept_hello dec app h (some hello))
  unfolding Push.get
  at_client b h hello t e = elim (Option-cases (lookup hello.client_id h.clients)) [
    | inl gone ↦
        inr (λ id i. cc (i.known, i.names, i.decodes, i.is_text), Refusal.unknown_client, rw gone)
    | inr (client, known) ↦ inl (
      hello.client_id,
      record {
        bytes = b;
        hello = hello;
        client = client;
        signed = refl;
        is_text = refl;
        has_type = t;
        decodes = e;
        names = refl;
        known = known;
      },
      rw known,
    )
  ]

  at_hello :
      (b : Bytes) (h : Hub) (o : Option ClientHello)
      → dec.head b ≡ some "client_hello"
      → dec.client_hello b ≡ o
      → Decided true (text b) h (accept_hello dec app h o)
  at_hello b h none t e = inr (λ id i. cc (i.decodes, i.is_text, e), Refusal.missing_fields, refl)
  at_hello b h (some hello) t e = at_client b h hello t e

  at_head :
      (b : Bytes) (h : Hub) (o : Option String)
      → dec.head b ≡ o
      → Decided true (text b) h (accept_head dec app b h o)
  at_head b h none e = inr (λ id i. cc (i.has_type, i.is_text, e), Refusal.malformed_first, refl)
  at_head b h (some t) e = elim (Bool-cases (str_eq t "client_hello")) [
    | inl is ↦
        rw is
          (at_hello b h (dec.client_hello b) (e ∙ ap some ((eq_iff t "client_hello").0 is)) refl)
    | inr isnt ↦ rw isnt (
        inr (
          λ id i.
              let same : t ≡ "client_hello" = cc (i.has_type, i.is_text, e) in
              cc ((eq_iff t "client_hello").1 same, isnt),
          Refusal.not_hello,
          refl,
        ))
  ]

  -- A connection is let in exactly if it is authenticated and its first frame is a `client_hello`
  -- that decodes and names a registered client; otherwise it is refused and nothing changes.
  pub accept-Decided :
      (authorised : Bool) (first : Received) (h : Hub)
      → Decided authorised first h (accept dec app authorised first h)
  unfolding accept
  accept-Decided false first h = inr (λ id i. cc (i.signed), Refusal.auth_required, refl)
  accept-Decided true failed h = inr (λ id i. cc (i.is_text), Refusal.read_ended, refl)
  accept-Decided true other h = inr (λ id i. cc (i.is_text), Refusal.not_text, refl)
  accept-Decided true (text b) h = at_head b h (dec.head b) refl
