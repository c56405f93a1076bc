-- ===== src/Client/Gui/Typed.antt =====
-- gui.go: what becomes of a line that the user enters.
use Prim.Native.String.{String}
use text.Mathlib.Text.{◌==◌ as str_eq, starts_with}
use vuvuzela.Prelude.{
  ℕ, zero, suc, ◌<◌, ◌≤◌, ◌≡◌, ◌≢◌, ◌==◌, refl, sym, ap, ◌∙◌, true, false, List, [], ◌∷◌, ◌++◌,
  none, some, ◌⊎◌, inl, inr, arith, ltb, length, get_elem?, set, Bool-cases,
}
use vuvuzela.Run.{ok, blocked}
use mathlib.Core.Path.{subst}
use vuvuzela.Bytes.{Bytes, bytes_eq}
use vuvuzela.Bytes.Equality.{bytes_eq_iff}
use vuvuzela.Nacl.{Nacl}
use vuvuzela.Pki.{find_name}
use vuvuzela.Rounds
use vuvuzela.Envelope.{announce_convo_round}
use vuvuzela.Client.Text.{points, trim_space, utf8_bytes}
use vuvuzela.Client.Conversation.{Peer, Conversation, solo, queue_text_message}
use vuvuzela.Client.Handlers.{Client, handle_response, next_request, next_convo_request}
use vuvuzela.Client.Gui.{
  User, Gui, Status, say, said, selected, with_convo, send_text, handle_line, argument, go_on,
  layout, status, peer_of,
}
use vuvuzela.Client.Gui.Known.{IsWith, peer_of-IsWith, View, view, handlers_of, some-injective}
use vuvuzela.Client.Gui.Switch.{waiting, switch_conversation-SwitchedTo, get_elem?-unmap}
use vuvuzela.Client.Gui.Steps.{Reachable, Reachable-Consistent, put_convo}

set-same {ℓ} :
    {A : Type ℓ} (xs : List A) (i : ℕ) {x : A} → get_elem? xs i ≡ some x → set xs i x ≡ xs
set-same [] i e = refl
set-same (y ∷ xs) zero e = ap (λ x. x ∷ xs) (sym (some-injective e))
set-same (y ∷ xs) (suc i) e = ap (◌∷◌ y) (set-same xs i e)

-- What the lines of the screen are for the conversation `c` with `p`: the partner's name, or none for a
-- conversation of the user with themselves; the round, or none before the first.
abbrev pub IsStatus : User → Peer → Conversation → Status → Type 0
IsStatus me p c s =
    (s.name ≡ me.my_name)
    × (((p.my_public_key ≡ p.peer_public_key) × (s.partner ≡ none))
        ⊎ ((p.my_public_key ≢ p.peer_public_key) × (s.partner ≡ some p.peer_name)))
    × (((c.last_round ≡ 0) × (s.round ≡ none))
        ⊎ ((c.last_round ≢ 0) × (s.round ≡ some c.last_round)))
    × (s.latency ≡ c.last_latency)
    × (s.peer_responding ≡ c.last_peer_responding)

module _ (box : Nacl) (hmac : Bytes → Bytes → Bytes) (me : User) (p : Peer) (c : Conversation) where
  partner_shown :
      ((p.my_public_key ≡ p.peer_public_key) × ((status box hmac me p c).partner ≡ none))
      ⊎ ((p.my_public_key ≢ p.peer_public_key)
          × ((status box hmac me p c).partner ≡ some p.peer_name))
  unfolding status solo
  partner_shown =
      let iff = bytes_eq_iff p.my_public_key p.peer_public_key in
      elim (Bool-cases (bytes_eq p.my_public_key p.peer_public_key)) [
        | inl e ↦ inl (iff.0 e, rw e)
        | inr e ↦ inr (λ same. cc (e, iff.1 same), rw e)
      ]

  round_shown :
      ((c.last_round ≡ 0) × ((status box hmac me p c).round ≡ none))
      ⊎ ((c.last_round ≢ 0) × ((status box hmac me p c).round ≡ some c.last_round))
  unfolding status
  round_shown = elim (Bool-cases (c.last_round == 0)) [
    | inl e ↦ inl (ground arith, rw e)
    | inr e ↦ inr (λ zeroth. ground arith, rw e)
  ]

  status-IsStatus : IsStatus me p c (status box hmac me p c)
  unfolding status
  status-IsStatus = (refl, partner_shown, round_shown, refl, refl)

module _ (box : Nacl) (hmac : Bytes → Bytes → Bytes) (me : User) (g : Gui) where
  -- The conversation `c` with `p` at `h` is the selected one, and drawing the screen shows it.
  abbrev pub Shows : ℕ → Peer → Conversation → Type 0
  Shows h p c =
      (g.selected_convo ≡ some h)
      × (get_elem? g.heap h ≡ some (p, c))
      × (s : Status) × (layout box hmac me g ≡ (record g { main_view = true }, ok s))
      × IsStatus me p c s

  shows :
      (h : ℕ) (p : Peer) (c : Conversation)
      → g.selected_convo ≡ some h
      → get_elem? g.heap h ≡ some (p, c)
      → Shows h p c
  unfolding layout selected
  shows h p c chosen there = (
    chosen,
    there,
    status box hmac me p c,
    simp (layout, chosen, with_convo, there, set-same g.heap h there) refl,
    status-IsStatus box hmac me p c,
  )

-- The text of a line, as it is sent.
abbrev pub text_of : String → Bytes
text_of line = utf8_bytes (trim_space (points line))

-- The state with the text of the line behind the others of the conversation `c` at `h`, and with the
-- line below what the main view has.
abbrev pub with_text : User → String → ℕ → Peer → Conversation → Gui → Gui
with_text me line h p c g =
    record (put_convo h p (record c { out_queue = c.out_queue ++ text_of line ∷ [] }) g) {
      shown = g.shown ++ said me.my_name (trim_space (points line)) ∷ [];
    }

-- A line that is no command, in a conversation that can be found.
module _ (me : User) (line : String) (plain : str_eq line "/quit" ≡ false)
    (no_talk : starts_with line "/talk " ≡ false) (no_dial : starts_with line "/dial " ≡ false)
    (g : Gui) (drawn : g.main_view ≡ true) (h : ℕ) (p : Peer) (c : Conversation)
    (chosen : g.selected_convo ≡ some h) (there : get_elem? g.heap h ≡ some (p, c)) where
  handle_line-room :
      length c.out_queue < 64 → handle_line me line g ≡ (with_text me line h p c g, ok go_on)
  unfolding handle_line send_text selected queue_text_message say with_convo
  handle_line-room room =
      let fits : ltb (length c.out_queue) 64 ≡ true = ground arith in
      simp (handle_line, plain, no_talk, no_dial, send_text, chosen, with_convo, there, fits)
        (simp drawn refl)

  handle_line-full : 64 ≤ length c.out_queue → handle_line me line g ≡ (g, blocked)
  unfolding handle_line send_text selected queue_text_message say with_convo
  handle_line-full full =
      let over : ltb (length c.out_queue) 64 ≡ false = ground arith in
      simp (handle_line, plain, no_talk, no_dial, send_text, chosen, with_convo, there, over)
        (simp (set-same g.heap h there)
          (ap (λ x. (record g { selected_convo = x }, blocked)) (sym chosen)))

  -- The line waits behind the texts of `c`, and is shown; or, if 64 texts wait, the user interface waits.
  abbrev pub IsQueued : Type 0
  IsQueued =
      ((length c.out_queue < 64) × (handle_line me line g ≡ (with_text me line h p c g, ok go_on)))
      ⊎ ((64 ≤ length c.out_queue) × (handle_line me line g ≡ (g, blocked)))

  queued_or_waits : IsQueued
  queued_or_waits = elim (Bool-cases (ltb (length c.out_queue) 64)) [
    | inl room ↦
        let fits : length c.out_queue < 64 = ground arith in inl (fits, handle_line-room fits)
    | inr full ↦
        let over : 64 ≤ length c.out_queue = ground arith in inr (over, handle_line-full over)
  ]

module _ (box : Nacl) (hmac : Bytes → Bytes → Bytes) (me : User) {key : Bytes}
    (listed : find_name me.my_name me.pki.people ≡ some key) {g : Gui}
    (reached : Reachable box hmac me g) where
  -- The user's name is in the PKI, there is a client, and the main view is there. The screen shows a
  -- conversation with a peer by a name and with the key that the PKI has for that name. A line that is
  -- no command goes behind the texts that wait there, and is shown in the main view; with 64 waiting
  -- texts the user interface waits. Whichever round is announced next, it is the same conversation
  -- that the client asks for a request.
  pub handle_line-reaches_partner :
      (line : String) (k : Client) (round : ℕ)
      → (plain : str_eq line "/quit" ≡ false) → (no_talk : starts_with line "/talk " ≡ false)
      → (no_dial : starts_with line "/dial " ≡ false) → (drawn : g.main_view ≡ true)
      → g.client ≡ some k
      → (h : ℕ) × (p : Peer) × (c : Conversation) × (shown : Shows box hmac me g h p c) × IsQueued
          me line plain no_talk no_dial g drawn h p c shown.0 shown.1
        × ((partner : Bytes) × IsWith me p.peer_name partner p
            × (find_name p.peer_name me.pki.people ≡ some partner))
        × (k' : Client) × (handle_response (announce_convo_round round) k ≡ (k', ok tt))
        × (k'.calls ≡ k.calls ++ next_convo_request h round ∷ [])
  unfolding handle_response next_request
  handle_line-reaches_partner line k round plain no_talk no_dial drawn started =
      let i = Reachable-Consistent box hmac me listed reached in
      let (h, p, chosen, there) = i.talking in
      let (c, here) = get_elem?-unmap g.heap h there in
      let (partner, q, there', with, people) =
        i.registered.known p.peer_name h (i.registered.mapped h p there) in
      let same : q ≡ p = some-injective (sym there' ∙ there) in
      let handler : k.convo_handler ≡ some h =
        (i.handled k.convo_handler k.dial_handler (ap handlers_of started)).0 ∙ chosen in
      (
        h,
        p,
        c,
        shows box hmac me g h p c chosen here,
        queued_or_waits me line plain no_talk no_dial g drawn h p c chosen here,
        (partner, subst (λ x. IsWith me p.peer_name partner x) same with, people),
        record k {
          round_handlers = Rounds.insert round h k.round_handlers;
          calls = k.calls ++ next_convo_request h round ∷ [];
        },
        simp (next_request, handler) refl,
        refl,
      )

  -- The user's name is in the PKI, and so is the name behind "/talk ". After that line the screen shows
  -- a conversation with a peer of that name and with the key that the PKI has for it, and each
  -- conversation waits with the texts that it had: a new one with none.
  pub handle_line-talks :
      (line : String) {peer_key : Bytes}
      → str_eq line "/quit" ≡ false
      → starts_with line "/talk " ≡ true
      → find_name (argument me line) me.pki.people ≡ some peer_key
      → (g' : Gui) × (h : ℕ) × (p : Peer) × (c : Conversation) × (handle_line me line g
          ≡ (g', ok go_on))
        × Shows box hmac me g' h p c
        × IsWith me (argument me line) peer_key p
        × ((waiting g' ≡ waiting g)
            ⊎ ((find_name (argument me line) g.conversations ≡ none)
                × (waiting g' ≡ waiting g ++ [] ∷ [])))
  unfolding handle_line
  handle_line-talks line {peer_key} plain talk known =
      let i = Reachable-Consistent box hmac me listed reached in
      let peer = argument me line in
      let (g', ran, (h, v, seen, _, there, _, kept)) =
        switch_conversation-SwitchedTo me peer peer_key g i.registered known in
      let there' : get_elem? (view g').peers h ≡ some (peer_of me peer peer_key) =
        ap (λ (x : View). get_elem? x.peers h) seen ∙ there in
      let (c, here) = get_elem?-unmap g'.heap h there' in
      let chosen : g'.selected_convo ≡ some h = ap (λ (x : View). x.selected) seen in
      (
        g',
        h,
        peer_of me peer peer_key,
        c,
        simp (handle_line, plain, talk, ran),
        shows box hmac me g' h (peer_of me peer peer_key) c chosen here,
        peer_of-IsWith me peer peer_key,
        kept,
      )
