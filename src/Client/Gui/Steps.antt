-- ===== src/Client/Gui/Steps.antt =====
-- vuvuzela-client: the steps of a running client, of its user and of the network, in any order.
use Prim.Native.String.{String}
use mathlib.Core.Path.{subst}
use vuvuzela.Prelude.{ℕ, ◌≡◌, sym, ap, ◌∙◌, Bool, true, [], Option, some, get_elem?, set}
use vuvuzela.Run.{ok}
use vuvuzela.Bytes.{Bytes, Random}
use vuvuzela.Nacl.{Nacl}
use vuvuzela.Pki.{find_name}
use vuvuzela.Envelope.{ApiMessage}
use vuvuzela.Client.Varint.{ℤ}
use vuvuzela.Client.Conversation.{
  Peer, Conversation, ConvoRequest, ConvoResponse, next_convo_request, handle_convo_response,
}
use vuvuzela.Client.Dialer.{Dialer}
use vuvuzela.Client.Handlers.{Client, handle_response, handle_response-SameHandlers, SameHandlers}
use vuvuzela.Client.Gui.{
  User, Gui, Answer, Status, blank, start_gui, init_dialer, read_line, start_up, layout, peer_of,
}
use vuvuzela.Client.Gui.Known.{view, handlers_of, map-set_same, Registered, Consistent}
use vuvuzela.Client.Gui.Switch.{switch_conversation-SwitchedTo}
use vuvuzela.Client.Gui.Keeps.{Consistent-switched, Keeps-read_line, Keeps-start_up, Keeps-layout}

-- The conversation at `h` is now `c`.
abbrev pub put_convo : ℕ → Peer → Conversation → Gui → Gui
put_convo h p c g = record g { heap = set g.heap h (p, c) }

handlers_of-same :
    (c c' : Client) → SameHandlers c c' → handlers_of (some c') ≡ handlers_of (some c)
handlers_of-same c c' (p, q) = rw (p, q)

module _ (box : Nacl) (hmac : Bytes → Bytes → Bytes) (me : User) where
  -- The handlers that end well: a line is entered, the screen is drawn, the client starts up, a message
  -- of the entry server comes, a conversation makes a request or reads a response, the dialer works.
  pub data Step : Gui → Gui → Type 0 where
    entered :
        {g g' : Gui} (size : ℕ) (above : Option String) (a : Answer)
        → read_line me size above g ≡ (g', ok a)
        → Step g g'
    drawn : {g g' : Gui} (s : Status) → layout box hmac me g ≡ (g', ok s) → Step g g'
    started : {g g' : Gui} (answers : Bool) → start_up me answers g ≡ (g', ok tt) → Step g g'
    heard :
        {g : Gui} {c c' : Client} (message : ApiMessage)
        → g.client ≡ some c
        → handle_response message c ≡ (c', ok tt)
        → Step g (record g { client = some c' })
    asked :
        {g : Gui} (h : ℕ) {p : Peer} {c c' : Conversation} (round : ℕ) (now : ℤ) (r : Random)
        (rs : ℕ → Random) (request : ConvoRequest)
        → get_elem? g.heap h ≡ some (p, c)
        → next_convo_request box hmac p round now r rs c ≡ (c', ok request)
        → Step g (put_convo h p c' g)
    answered :
        {g : Gui} (h : ℕ) {p : Peer} {c c' : Conversation} (since : ℤ → ℤ)
        (response : ConvoResponse)
        → get_elem? g.heap h ≡ some (p, c)
        → handle_convo_response box hmac p since response c ≡ (c', ok tt)
        → Step g (put_convo h p c' g)
    dialled : {g : Gui} (d : Dialer) → Step g (record g { dialer = some d })

  pub data Reachable : Gui → Type 0 where
    ready : {g : Gui} → start_gui me blank ≡ (g, ok tt) → Reachable g
    after : {g g' : Gui} → Reachable g → Step g g' → Reachable g'

  Step-Consistent : {g g' : Gui} → Step g g' → Consistent me (view g) → Consistent me (view g')
  Step-Consistent {g} (entered size above a e) i =
      subst (λ x. Consistent me (view x)) (ap (λ x. x.0) e) (Keeps-read_line me size above g i)
  Step-Consistent {g} (drawn s e) i =
      subst (λ x. Consistent me (view x)) (ap (λ x. x.0) e) (Keeps-layout me box hmac g i)
  Step-Consistent {g} (started answers e) i =
      subst (λ x. Consistent me (view x)) (ap (λ x. x.0) e) (Keeps-start_up me answers g i)
  Step-Consistent {g} (heard {c = c} {c'} message there e) i =
      let same = handle_response-SameHandlers message c in
      let now : (handle_response message c).0 ≡ c' = ap (λ x. x.0) e in
      let kept : handlers_of (some c') ≡ handlers_of g.client =
        handlers_of-same c c' (subst (λ x. SameHandlers c x) now same)
        ∙ sym (ap handlers_of there) in
      subst (λ x. Consistent me x) (ap (λ x. record (view g) { handlers = x }) (sym kept)) i
  Step-Consistent {g} (asked h {p} {c} {c'} round now r rs request there e) i =
      subst (λ x. Consistent me x)
        (ap (λ x. record (view g) { peers = x }) (sym (map-set_same g.heap h c' there))) i
  Step-Consistent {g} (answered h {p} {c} {c'} since response there e) i =
      subst (λ x. Consistent me x)
        (ap (λ x. record (view g) { peers = x }) (sym (map-set_same g.heap h c' there))) i
  Step-Consistent (dialled d) i = i

  module _ {key : Bytes} (listed : find_name me.my_name me.pki.people ≡ some key) where
    blank-Registered : Registered me (view blank)
    unfolding find_name
    blank-Registered = record { known = λ name h e. cc; mapped = λ h p e. cc }

    -- The user, whose name the PKI has, starts out in a conversation of their own.
    start_gui-Consistent : {g : Gui} → start_gui me blank ≡ (g, ok tt) → Consistent me (view g)
    unfolding start_gui init_dialer
    start_gui-Consistent {g} e =
        let (g', ran, (h, v, seen, r, there, same, _)) =
          switch_conversation-SwitchedTo me me.my_name key blank blank-Registered listed in
        let done : record g' { dialer = some [] } ≡ g = ap (λ x. x.0) (rw ran at e) in
        let nobody : (handler : Option ℕ) (dials : Bool)
            → v.handlers ≡ some (handler, dials)
            → dials ≡ true =
          λ handler dials e. cc (same, e) in
        subst (λ x. Consistent me (view x)) done
          (subst (λ x. Consistent me x) (sym seen)
            (Consistent-switched me h (peer_of me me.my_name key) v r there nobody))

    -- The user's name is in the PKI. In whatever order the user and the network act after the start,
    -- the map and the heap hold one conversation for each name talked to, with that name, the key that
    -- the PKI has for it and the user's own keys; one of them is selected; and the client, once there is one, has it as its handler.
    pub Reachable-Consistent : {g : Gui} → Reachable g → Consistent me (view g)
    Reachable-Consistent (ready e) = start_gui-Consistent e
    Reachable-Consistent (after r s) = Step-Consistent s (Reachable-Consistent r)
