-- ===== src/Client/Gui/Keeps.antt =====
-- gui.go: the handlers of the user interface, and the rules about its conversations.
use Prim.Native.String.{String}
use text.Mathlib.Text.{◌==◌ as str_eq, starts_with}
use mathlib.Core.Path.{subst}
use vuvuzela.Prelude.{
  ℕ, ◌≡◌, refl, sym, ap, ◌∙◌, Bool, true, Option, some, ◌==◌, Option-cases, Bool-cases, inl, inr,
  get_elem?,
}
use vuvuzela.Run.{Run, ok, err, panic, blocked}
use vuvuzela.Bytes.{Bytes}
use vuvuzela.Nacl.{Nacl}
use vuvuzela.Pki.{find_name}
use vuvuzela.Rpc.{Call, continue, pure, ◌>>=◌, ◌>>◌}
use vuvuzela.Client.Conversation.{Peer, Conversation, queue_text_message}
use vuvuzela.Client.Handlers.{Client, new_client, set_dial_handler, connect-SameHandlers}
use vuvuzela.Client.Text.{points, trim_space, utf8_bytes}
use vuvuzela.Client.Gui.{
  User, Gui, Note, say, selected, with_convo, queue_dial, make_client, dial_server, connect,
  switch_conversation, dial_user, send_text, handle_line, argument, read_line, tell_outcome,
  start_up, layout, peer_of, unknown_user, dialing, said, go_on, status,
}
use vuvuzela.Client.Gui.Known.{View, view, handlers_of, view-with_convo, Registered, Consistent}
use vuvuzela.Client.Gui.Switch.{
  switched, switch_conversation-SwitchedTo, activate_convo-view, get_elem?-unmap,
}
use vuvuzela.Client.Gui.Known.{some-injective}

module _ (me : User) where
  -- A step that keeps the rules, however it ends.
  abbrev pub Keeps : {A : Type 0} → Call Gui A → Type 0
  Keeps m = (g : Gui) → Consistent me (view g) → Consistent me (view (m g).0)

  Keeps-continue :
      {A B : Type 0} (f : A → Call Gui B)
      → ((a : A) → Keeps (f a))
      → (g : Gui) (r : Run A) → Consistent me (view g)
      → Consistent me (view (continue f g r).0)
  Keeps-continue f k g (ok a) i = k a g i
  Keeps-continue f k g (err e) i = i
  Keeps-continue f k g panic i = i
  Keeps-continue f k g blocked i = i

  pub Keeps->>= :
      {A B : Type 0} (m : Call Gui A) (f : A → Call Gui B)
      → Keeps m
      → ((a : A) → Keeps (f a))
      → Keeps (m >>= f)
  Keeps->>= m f j k g i = Keeps-continue f k (m g).0 (m g).1 (j g i)

  -- A step that changes nothing of what the rules speak of.
  pub Keeps-same_view :
      {A : Type 0} (m : Call Gui A) → ((g : Gui) → view (m g).0 ≡ view g) → Keeps m
  Keeps-same_view m same g i = subst (λ v. Consistent me v) (sym (same g)) i

  pub Keeps-say : (note : Note) → Keeps (say note)
  unfolding say
  Keeps-say note g i = i

  Keeps-with_convo :
      {A : Type 0} (h : ℕ) (step : Peer → Call Conversation A) → Keeps (with_convo h step)
  Keeps-with_convo h step = Keeps-same_view (with_convo h step) (view-with_convo h step)

  Keeps-selected : Keeps selected
  unfolding selected
  Keeps-selected g i = i

  view-queue_dial : (key : Bytes) (g : Gui) → view (queue_dial key g).0 ≡ view g
  unfolding queue_dial
  view-queue_dial key g = elim (Option-cases g.dialer) [
    | inl e ↦ rw (queue_dial, e)
    | inr (d, e) ↦ rw (queue_dial, e)
  ]

  pub Consistent-switched :
      (h : ℕ) (p : Peer) (v : View)
      → Registered me v
      → get_elem? v.peers h ≡ some p
      → ((handler : Option ℕ) (dials : Bool) → v.handlers ≡ some (handler, dials) → dials ≡ true)
      → Consistent me (switched h v)
  Consistent-switched h p v r there all_dial = record {
    registered = record { known = r.known; mapped = r.mapped };
    talking = (h, p, refl, there);
    handled = λ handler dials e. elim (Option-cases v.handlers) [
      | inl nobody ↦ cc (rw nobody at e)
      | inr ((handler', dials'), someone) ↦
          let pair = some-injective (rw someone at e) in
          (
            ap (λ (x : Option ℕ × Bool). x.0) (sym pair),
            ap (λ (x : Option ℕ × Bool). x.1) (sym pair) ∙ all_dial handler' dials' someone,
          )
    ];
  }

  Keeps-switch_conversation : (peer : String) → Keeps (switch_conversation me peer)
  unfolding switch_conversation say
  Keeps-switch_conversation peer g i = elim (Option-cases (find_name peer me.pki.people)) [
    | inr (key, listed) ↦
        let (g', ran, (h, v, seen, r, there, same, _)) =
          switch_conversation-SwitchedTo me peer key g i.registered listed in
        let after : (switch_conversation me peer g).0 ≡ g' = ap (λ x. x.0) ran in
        let all_dial : (handler : Option ℕ) (dials : Bool)
            → v.handlers ≡ some (handler, dials)
            → dials ≡ true =
          λ handler dials e. (i.handled handler dials (sym same ∙ e)).1 in
        subst (λ v. Consistent me v) (sym (ap view after ∙ seen))
          (Consistent-switched h (peer_of me peer key) v r there all_dial)
    | inl unlisted ↦ elim (Option-cases (find_name peer g.conversations)) [
      | inr (h, old) ↦
          let (key, _, _, _, listed) = i.registered.known peer h old in cc (unlisted, listed)
      | inl new ↦ rw (switch_conversation, new, unlisted) i
    ]
  ]

  Keeps-dial_user : (peer : String) → Keeps (dial_user me peer)
  unfolding dial_user
  Keeps-dial_user peer g i = elim (Option-cases (find_name peer me.pki.people)) [
    | inl unlisted ↦ rw (dial_user, unlisted) (Keeps-say (unknown_user peer) g i)
    | inr (key, listed) ↦
        rw (dial_user, listed)
          (Keeps->>= (say (dialing peer)) (λ _. queue_dial key) (Keeps-say (dialing peer))
            (λ _. Keeps-same_view (queue_dial key) (view-queue_dial key)) g i)
  ]

  Keeps-send_text : (line : String) → Keeps (send_text me line)
  unfolding send_text
  Keeps-send_text line =
      let msg = trim_space (points line) in
      let queued : ℕ → Call Gui (Unit {0}) =
        λ h. with_convo h (λ _. queue_text_message (utf8_bytes msg)) in
      Keeps->>= selected (λ h. queued h >>= λ _. say (said me.my_name msg)) Keeps-selected
        (λ h.
          Keeps->>= (queued h) (λ _. say (said me.my_name msg))
            (Keeps-with_convo h (λ _. queue_text_message (utf8_bytes msg)))
            (λ _. Keeps-say (said me.my_name msg)))

  Keeps-then_pure : {A : Type 0} (m : Call Gui (Unit {0})) (a : A) → Keeps m → Keeps (m >> pure a)
  Keeps-then_pure m a k = Keeps->>= m (λ _. pure a) k (λ _ g i. i)

  Keeps-handle_line : (line : String) → Keeps (handle_line me line)
  unfolding handle_line
  Keeps-handle_line line g i = elim (Bool-cases (str_eq line "/quit")) [
    | inl e ↦ rw (handle_line, e) i
    | inr e ↦ elim (Bool-cases (starts_with line "/talk ")) [
      | inl f ↦
          rw (handle_line, e, f)
            (Keeps-then_pure (switch_conversation me (argument me line)) go_on
              (Keeps-switch_conversation (argument me line)) g i)
      | inr f ↦ elim (Bool-cases (starts_with line "/dial ")) [
        | inl d ↦
            rw (handle_line, e, f, d)
              (Keeps-then_pure (dial_user me (argument me line)) go_on
                (Keeps-dial_user (argument me line)) g i)
        | inr d ↦
            rw (handle_line, e, f, d)
              (Keeps-then_pure (send_text me line) go_on (Keeps-send_text line) g i)
      ]
    ]
  ]

  pub Keeps-read_line : (size : ℕ) (above : Option String) → Keeps (read_line me size above)
  unfolding read_line
  Keeps-read_line size above g i = elim (Bool-cases (size == 0)) [
    | inl e ↦ rw (read_line, e) i
    | inr e ↦ elim (Option-cases above) [
      | inl f ↦ rw (read_line, e, f) i
      | inr (line, f) ↦ elim (Bool-cases (str_eq line "")) [
        | inl d ↦ rw (read_line, e, f, d) i
        | inr d ↦ rw (read_line, e, f, d) (Keeps-handle_line line g i)
      ]
    ]
  ]

  view-dial_server : (answers : Bool) (g : Gui) → view (dial_server answers g).0 ≡ view g
  unfolding dial_server
  view-dial_server answers g = elim (Option-cases g.client) [
    | inl nobody ↦ simp (dial_server, nobody)
    | inr (c, someone) ↦ simp (
      dial_server,
      someone,
      (connect-SameHandlers answers c).0,
      (connect-SameHandlers answers c).1,
    )
  ]

  -- The client that Connect finds or makes.
  make_client-some :
      (g : Gui)
      → Consistent me (view g)
      → (c : Client) × (make_client g ≡ (record g { client = some c }, ok tt))
        × (c.dial_handler ≡ true)
  unfolding make_client set_dial_handler
  make_client-some g i = elim (Option-cases g.client) [
    | inl nobody ↦ (set_dial_handler new_client, rw (make_client, nobody), refl)
    | inr (c, someone) ↦
        let dialled = (i.handled c.convo_handler c.dial_handler (ap handlers_of someone)).1 in
        (
          c,
          simp (make_client, someone) (ap (λ k. (record g { client = k }, ok tt)) someone),
          dialled,
        )
  ]

  Keeps-connect : (answers : Bool) → Keeps (connect answers)
  unfolding connect selected
  Keeps-connect answers g i =
      let (c, made, dialled) = make_client-some g i in
      let (h, p, talking, there) = i.talking in
      let (convo, here) = get_elem?-unmap g.heap h there in
      let (g', ran, seen, _) =
        activate_convo-view h (record g { selected_convo = some h; client = some c }) here in
      let v : View = record (view g) { handlers = some (c.convo_handler, c.dial_handler) } in
      let after : view (connect answers g).0 ≡ switched h v =
        simp (connect, made, talking, ran) (view-dial_server answers g' ∙ seen) in
      subst (λ v. Consistent me v) (sym after)
        (Consistent-switched h p v
          (record { known = i.registered.known; mapped = i.registered.mapped }) there
          (λ handler dials e. ap (λ (x : Option ℕ × Bool). x.1) (sym (some-injective e)) ∙ dialled))

  Keeps-tell_outcome : (outcome : Run (Unit {0})) → Keeps (tell_outcome me outcome)
  unfolding tell_outcome
  Keeps-tell_outcome (ok _) g i = i
  Keeps-tell_outcome (err e) g i = i
  Keeps-tell_outcome panic g i = i
  Keeps-tell_outcome blocked g i = i

  pub Keeps-start_up : (answers : Bool) → Keeps (start_up me answers)
  unfolding start_up
  Keeps-start_up answers g i =
      Keeps-tell_outcome (connect answers g).1 (connect answers g).0 (Keeps-connect answers g i)

  pub Keeps-layout : (box : Nacl) (hmac : Bytes → Bytes → Bytes) → Keeps (layout box hmac me)
  unfolding layout
  Keeps-layout box hmac g i =
      Keeps->>= selected (λ h. with_convo h (λ p c. (c, ok (status box hmac me p c))))
        Keeps-selected (λ h. Keeps-with_convo h (λ p c. (c, ok (status box hmac me p c))))
        (record g { main_view = true }) i
