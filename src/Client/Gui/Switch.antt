-- ===== src/Client/Gui/Switch.antt =====
-- switchConversation of gui.go: which conversation is selected after it.
use Prim.Native.String.{String}
use vuvuzela.Prelude.{
  ℕ, ◌≡◌, refl, sym, ap, ◌∙◌, Bool, List, [], ◌∷◌, ◌++◌, map, Option, none, some, length, get_elem?,
  set, length-map, get_elem?-map, get_elem?-lt, get_elem?-in_range, Option-cases, inl, inr, ◌⊎◌,
  zero, suc,
}
use mathlib.Core.List.{map-append}
use vuvuzela.Run.{ok}
use vuvuzela.Bytes.{Bytes}
use vuvuzela.Pki.{find_name}
use vuvuzela.Client.Conversation.{start_conversation, Peer, Conversation}
use vuvuzela.Client.Handlers.{Client, set_convo_handler}
use vuvuzela.Client.Gui.{
  User, Gui, say, with_convo, use_handler, activate_convo, select_convo, reset_convo, peer_of,
  add_convo, switch_conversation, now_talking,
}
use vuvuzela.Client.Gui.Known.{
  View, view, handlers_of, Registered, Registered-extended, extended, get_elem?-last, map-set_same,
  some-injective, IsWith-peer_of,
}

-- The client's handler becomes the conversation at `h`.
abbrev pub retarget : ℕ → Option (Option ℕ × Bool) → Option (Option ℕ × Bool)
retarget h none = none
retarget h (some (handler, dials)) = some (some h, dials)

handlers_of-set :
    (h : ℕ) (c : Client)
    → handlers_of (some (set_convo_handler h c)) ≡ retarget h (handlers_of (some c))
unfolding set_convo_handler
handlers_of-set h c = refl

pub get_elem?-unmap :
    (heap : List (Peer × Conversation)) (h : ℕ) {p : Peer}
    → get_elem? (map (λ e. e.0) heap) h ≡ some p
    → (c : Conversation) × (get_elem? heap h ≡ some (p, c))
get_elem?-unmap heap h e =
    let inside = get_elem?-lt (map (λ e. e.0) heap) h e in
    let ((q, c), there) = get_elem?-in_range heap h (rw (length-map heap (λ e. e.0)) at inside) in
    let same : some q ≡ some _ = sym (get_elem?-map heap (λ e. e.0) h there) ∙ e in
    (c, there ∙ ap some (cc same))

-- The texts that wait in each conversation.
abbrev pub waiting : Gui → List (List Bytes)
waiting g = map (λ e. e.1.out_queue) g.heap

waiting-set :
    (heap : List (Peer × Conversation)) (h : ℕ) {p : Peer} {c : Conversation} (c' : Conversation)
    → get_elem? heap h ≡ some (p, c)
    → c'.out_queue ≡ c.out_queue
    → map (λ e. e.1.out_queue) (set heap h (p, c')) ≡ map (λ e. e.1.out_queue) heap
waiting-set [] h c' e same = cc
waiting-set ((q, d) ∷ heap) zero {p} {c} c' e same =
    let found : d.out_queue ≡ c.out_queue =
      ap (λ (x : Peer × Conversation). x.1.out_queue) (some-injective e) in
    ap (λ x. x ∷ map (λ e. e.1.out_queue) heap) (same ∙ sym found)
waiting-set ((q, d) ∷ heap) (suc h) c' e same = ap (◌∷◌ d.out_queue) (waiting-set heap h c' e same)

-- Every conversation that can be selected can be activated.
pub activate_convo-view :
    (h : ℕ) (g : Gui) {p : Peer} {c : Conversation}
    → get_elem? g.heap h ≡ some (p, c)
    → (g' : Gui) × (activate_convo h g ≡ (g', ok tt))
      × (view g' ≡ record (view g) { handlers = retarget h (view g).handlers })
      × (waiting g' ≡ waiting g)
unfolding activate_convo use_handler reset_convo set_convo_handler
activate_convo-view h g {p} {c} there = elim (Option-cases g.client) [
  | inl nobody ↦ (g, simp (activate_convo, nobody), simp nobody, refl)
  | inr (client, someone) ↦ (
    record g {
      heap = set g.heap h (p, (reset_convo p c).0);
      client = some (set_convo_handler h client);
    },
    simp (activate_convo, someone, with_convo, there, use_handler),
    simp (someone, map-set_same g.heap h (reset_convo p c).0 there),
    waiting-set g.heap h (reset_convo p c).0 there refl,
  )
]

pub select_convo-view :
    (h : ℕ) (peer : String) (g : Gui) {p : Peer} {c : Conversation}
    → get_elem? g.heap h ≡ some (p, c)
    → (g' : Gui) × (select_convo h peer g ≡ (g', ok tt))
      × (view g' ≡ record (view g) { selected = some h; handlers = retarget h (view g).handlers })
      × (waiting g' ≡ waiting g)
unfolding select_convo say
select_convo-view h peer g there =
    let (g', ran, seen, kept) =
      activate_convo-view h (record g { selected_convo = some h }) there in
    ((say (now_talking peer) g').0, simp (ran), seen, kept)

-- The view after a switch to the conversation at `h`.
abbrev pub switched : ℕ → View → View
switched h v = record v { selected = some h; handlers = retarget h v.handlers }

module _ (me : User) (peer : String) (key : Bytes) (g : Gui) (r : Registered me (view g))
    (listed : find_name peer me.pki.people ≡ some key) where
  -- The conversation with `peer` is selected and is the client's handler, and no text is lost: if it
  -- is new, it is there with no text, and else the conversations wait with the texts that they had.
  abbrev pub SwitchedTo : Gui → Type 0
  SwitchedTo g' =
      (h : ℕ) × (v : View) × (view g' ≡ switched h v)
      × Registered me v
      × (get_elem? v.peers h ≡ some (peer_of me peer key))
      × (v.handlers ≡ (view g).handlers)
      × ((waiting g' ≡ waiting g)
          ⊎ ((find_name peer g.conversations ≡ none) × (waiting g' ≡ waiting g ++ [] ∷ [])))

  pub switch_conversation-SwitchedTo :
      (g' : Gui) × (switch_conversation me peer g ≡ (g', ok tt)) × SwitchedTo g'
  unfolding switch_conversation add_convo start_conversation
  switch_conversation-SwitchedTo = elim (Option-cases (find_name peer g.conversations)) [
    | inr (h, old) ↦
        let (k, p, there, with, people) = r.known peer h old in
        let same : k ≡ key = some-injective (sym people ∙ listed) in
        let (c, here) = get_elem?-unmap g.heap h there in
        let (g', ran, seen, kept) = select_convo-view h peer g here in
        (
          g',
          rw (switch_conversation, old) ran,
          (
            h,
            view g,
            seen,
            r,
            there
                ∙ ap some (IsWith-peer_of me peer k p with)
                ∙ ap (λ k. some (peer_of me peer k)) same,
            refl,
            inl kept,
          ),
        )
    | inl new ↦
        let v = extended me (view g) r peer key new listed in
        let made = add_convo me peer key g in
        let (g', ran, seen, kept) =
          select_convo-view (length g.heap) peer made
            (get_elem?-last g.heap (peer_of me peer key, start_conversation)) in
        let at : length (view g).peers ≡ length g.heap = length-map g.heap (λ e. e.0) in
        let grown : view made ≡ v = rw (
          at,
          map-append {A = Peer × Conversation} {B = Peer} (λ e. e.0) g.heap
              ((peer_of me peer key, start_conversation) ∷ []),
        ) in
        (
          g',
          rw (switch_conversation, new, listed) ran,
          (
            length g.heap,
            v,
            seen ∙ ap (switched (length g.heap)) grown,
            Registered-extended me (view g) r peer key new listed,
            rw at at (get_elem?-last (view g).peers (peer_of me peer key)),
            refl,
            inr (
              new,
              kept
                  ∙ map-append {A = Peer × Conversation} {B = List Bytes} (λ e. e.1.out_queue)
                      g.heap ((peer_of me peer key, start_conversation) ∷ []),
            ),
          ),
        )
  ]
