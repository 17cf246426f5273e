-- ===== src/Cli/Main.antt =====
-- `main` of crates/poholos-cli/src/main.rs: the node's id out of the arguments, and the chat that it starts.
use poholos.Prelude.{
  All, List, Option, Option-cases, Outcome, arith, err, inl, inr, is_some, none, not, ok, or_panic,
  panic, refl, some, subst, sym, ℕ, ◌<◌, ◌>>=◌, ◌∙◌, ◌≡◌, ◌≢◌,
}
use poholos.NodeId.{
  NodeId, NodeIdError, dash, new, parse, parse_parts, rsplit_once, validate_name, wire_id,
  of_name-IsU32,
}
use poholos.NodeId.Names.{parse-Parsed, parse-new}
use poholos.Seen.Cache.{SeenCache}
use poholos.Router
use poholos.Router.Decision.{new-IsRouter}
use poholos.Transports.{Transport}
use poholos.Cli.Chat.{Chat, Event, Shown, run}
use poholos.Cli.Apt.{IsApt, IsChat, IsEvent}
use poholos.Cli.Session.{run-IsApt}

pub data TransportKind : Type 0 where
  ble_kind udp_kind : TransportKind

-- The port of UDP is left out: it only serves to open the socket.
pub record Args : Type 0 where
  pub name : Option (List ℕ)
  pub id : Option (List ℕ)
  pub transport : TransportKind

-- clap's `required_unless_present` and `conflicts_with`.
abbrev pub IsArgs : Args → Type 0
IsArgs args = is_some args.name ≡ not (is_some args.id)

unfoldable pub node_of : Option (List ℕ) → Option (List ℕ) → ℕ → Outcome NodeIdError NodeId
node_of (some id) name entropy = parse id
node_of none (some name) entropy = new name entropy
node_of none none entropy = panic

-- The `match` on the arguments, with the random number that it draws.
abbrev pub node_of_args : Args → ℕ → Outcome NodeIdError NodeId
node_of_args args entropy = node_of args.id args.name entropy

-- How `main` fails.
pub data MainError : Type 0 where
  bad_node : NodeIdError → MainError
  no_transport : MainError

abbrev pub map_err : {A : Type 0} → Outcome NodeIdError A → Outcome MainError A
map_err (ok a) = ok a
map_err (err e) = err (bad_node e)
map_err panic = panic

abbrev pub or_fail : Option Transport → Outcome MainError Transport
or_fail none = err no_transport
or_fail (some transport) = ok transport

module _ {size : ℕ} (c : SeenCache size) where
  -- The state that `run` of crates/poholos-cli/src/app.rs starts from, with its random number.
  unfoldable pub start : NodeId → ℕ → Transport → Chat c
  start node seq transport = record {
    router = Router.new c (wire_id node);
    seq = seq;
    transport = transport;
  }

  -- `opened` is what opening a transport gives, if that succeeds.
  unfoldable pub main :
      ℕ
      → Args
      → ℕ
      → (TransportKind → Option Transport)
      → ℕ
      → List Event
      → Outcome MainError (Chat c × List Shown)
  main max_frame args entropy opened seq events = do
    node ← map_err (node_of_args args entropy)
    transport ← or_fail (opened args.transport)
    or_panic (run c max_frame (start node seq transport) events)

  start-IsChat :
      (node : NodeId) (seq : ℕ) (transport : Transport)
      → seq < 65536
      → IsChat c (start node seq transport)
  unfolding start Router.new wire_id
  start-IsChat node seq transport h = record {
    routes = (new-IsRouter c (wire_id node)).0;
    seq_fits = h;
    local_fits = of_name-IsU32 node.full;
  }

validate_name-total : (name : List ℕ) → validate_name name ≢ panic
unfolding validate_name
validate_name-total name h = ground (arith, h)

new-total : (name : List ℕ) (entropy : ℕ) → new name entropy ≢ panic
unfolding new validate_name
new-total name entropy h = ground (arith, h)

parse_parts-total : (s name suffix : List ℕ) → parse_parts s name suffix ≢ panic
unfolding parse_parts validate_name
parse_parts-total s name suffix h = ground (arith, h)

parse-total : (s : List ℕ) → parse s ≢ panic
unfolding parse
parse-total s h = elim (Option-cases (rsplit_once dash s)) [
  | inl whole ↦ ground (arith, rw (whole, parse) at h)
  | inr ((name, suffix), split) ↦ parse_parts-total s name suffix (sym (rw (split, parse) refl) ∙ h)
]

node_of-total :
    (name id : Option (List ℕ)) (entropy : ℕ)
    → is_some name ≡ not (is_some id)
    → node_of id name entropy ≢ panic
unfolding node_of
node_of-total name (some id) entropy h = parse-total id
node_of-total (some name) none entropy h = new-total name entropy
node_of-total none none entropy h = cc

restart_full :
    (name id : Option (List ℕ)) (entropy : ℕ) (node : NodeId)
    → node_of id name entropy ≡ ok node
    → parse node.full ≡ ok node
unfolding node_of
restart_full name (some id) entropy node h =
    subst (λ s. parse s ≡ ok node) (sym (parse-Parsed id node h).unchanged) h
restart_full (some name) none entropy node h = parse-new name entropy node h
restart_full none none entropy node h = ground (arith, h)

-- If the arguments give a node, by name or by id, its display form passed as the id gives the same
-- node, whatever is drawn at random.
pub node_of_args-restart :
    (args : Args) (entropy entropy' : ℕ) (node : NodeId)
    → node_of_args args entropy ≡ ok node
    → node_of_args (record args { name = none; id = some node.full }) entropy' ≡ ok node
unfolding node_of
node_of_args-restart args entropy entropy' node h = restart_full args.name args.id entropy node h

module _ {size : ℕ} (c : SeenCache size) where
  -- What the program does, once its node is known and a transport was opened or not.
  abbrev pub Serves :
      Outcome NodeIdError NodeId
      → Option Transport
      → Outcome MainError (Chat c × List Shown)
      → Type 0
  Serves (ok node) (some transport) o =
      (chat : Chat c) × (shown : List Shown) × (o ≡ ok (chat, shown))
      × (chat.router.local ≡ wire_id node)
      × All (IsApt (wire_id node)) shown
  Serves (ok node) none o = o ≡ err no_transport
  Serves (err e) t o = o ≡ err (bad_node e)
  Serves panic t o = ⊥

  serves :
      (max_frame : ℕ) (args : Args) (entropy : ℕ) (opened : TransportKind → Option Transport)
      (seq : ℕ) (events : List Event) (n : Outcome NodeIdError NodeId) (t : Option Transport)
      → node_of_args args entropy ≡ n
      → opened args.transport ≡ t
      → n ≢ panic
      → seq < 65536
      → All IsEvent events
      → Serves n t (main c max_frame args entropy opened seq events)
  unfolding main start Router.new
  serves m args entropy opened seq events (ok node) (some transport) e o total hq hs =
      let (chat, shown, d, w, same, apt) =
        run-IsApt c m (start c node seq transport) events (start-IsChat c node seq transport hq)
          hs in
      (chat, shown, rw (e, o, d) refl, same, apt)
  serves m args entropy opened seq events (ok node) none e o total hq hs = rw (e, o) refl
  serves m args entropy opened seq events (err x) t e o total hq hs = rw e refl
  serves m args entropy opened seq events panic t e o total hq hs = absurd (total refl)

  -- With exactly one of the arguments name and id, over any events of typed characters and
  -- received bytes, the program does not panic: it ends with the error of the name or id, or for
  -- want of a transport, or it runs the chat of the node that they give. Then each packet that it
  -- shows is well formed, comes from another node, is for this node, and is marked `you` exactly
  -- when it is a telegram; each refusal names the form or a length above the limit.
  pub main-Serves :
      (max_frame : ℕ) (args : Args) (entropy : ℕ) (opened : TransportKind → Option Transport)
      (seq : ℕ) (events : List Event)
      → IsArgs args
      → seq < 65536
      → All IsEvent events
      → Serves
          (node_of_args args entropy)
          (opened args.transport)
          (main c max_frame args entropy opened seq events)
  main-Serves m args entropy opened seq events h hq hs =
      serves m args entropy opened seq events (node_of_args args entropy) (opened args.transport)
        refl refl (node_of-total args.name args.id entropy h) hq hs
