-- ===== src/Exposed/Operations.antt =====
-- wotpy/wot/exposed/thing.py: the operations of an ExposedThing, and sequences of them.
use wot_py.Prelude.{String, Bool, List, [], ◌∷◌, Option}
use wot_py.Platform.{Platform}
use wot_py.Json.{Json}
use wot_py.Interaction.{Kind}
use wot_py.Thing.{Thing}
use wot_py.Exposed.{
  ExposedThing, Reader, Writer, Invoker, write_property, invoke, emit_event, add_property,
  add_action, add_event, remove, set_action_handler, set_property_read_handler,
  set_property_write_handler,
}
use wot_py.Exposed.WellFormed.{IsWellFormed}
use wot_py.Exposed.Steps.{
  set_action_handler-IsWellFormed, set_read_handler-IsWellFormed, set_write_handler-IsWellFormed,
  write_property-IsWellFormed, invoke-IsWellFormed, emit_event-IsWellFormed, remove-IsWellFormed,
  add_property-IsWellFormed, add_action-IsWellFormed, add_event-IsWellFormed,
}

-- The calls that may change an ExposedThing, with their arguments.
pub data Operation : Type 0 where
  writes_property : String → Json → Operation
  invokes_action : String → Json → Operation
  emits_event : String → Json → Operation
  adds_property : String → Bool → Bool → Json → Operation
  adds_action : String → Option Invoker → Operation
  adds_event : String → Operation
  removes_interaction : Kind → String → Operation
  sets_action_handler : String → Invoker → Operation
  sets_read_handler : String → Reader → Operation
  sets_write_handler : String → Writer → Operation

unfoldable pub perform : Platform → Operation → ExposedThing → ExposedThing
perform env (writes_property name v) x = (write_property env name v x).0
perform env (invokes_action name v) x = (invoke env name v x).0
perform env (emits_event name v) x = (emit_event env name v x).0
perform env (adds_property name read_only shown v) x = (add_property env name read_only shown v x).0
perform env (adds_action name h) x = (add_action env name h x).0
perform env (adds_event name) x = (add_event env name x).0
perform env (removes_interaction kind name) x = remove env kind name x
perform env (sets_action_handler name h) x = (set_action_handler name h x).0
perform env (sets_read_handler name h) x = (set_property_read_handler name h x).0
perform env (sets_write_handler name h) x = (set_property_write_handler name h x).0

unfoldable pub perform_all : Platform → List Operation → ExposedThing → ExposedThing
unfolding perform
perform_all env [] x = x
perform_all env (o ∷ os) x = perform_all env os (perform env o x)

module _ (env : Platform) where
  -- Every operation of an ExposedThing keeps it well formed, also where it raises: the names and URL
  -- names stay unique, every interaction stays under its name, a property stays a property, and no
  -- value or handler is stored for an object that does not exist yet.
  pub perform-IsWellFormed :
      (o : Operation) (x : ExposedThing) → IsWellFormed env x → IsWellFormed env (perform env o x)
  unfolding perform
  perform-IsWellFormed (writes_property name v) x h = write_property-IsWellFormed env name v x h
  perform-IsWellFormed (invokes_action name v) x h = invoke-IsWellFormed env name v x h
  perform-IsWellFormed (emits_event name v) x h = emit_event-IsWellFormed env name v x h
  perform-IsWellFormed (adds_property name r s v) x h = add_property-IsWellFormed env name r s v x h
  perform-IsWellFormed (adds_action name f) x h = add_action-IsWellFormed env name f x h
  perform-IsWellFormed (adds_event name) x h = add_event-IsWellFormed env name x h
  perform-IsWellFormed (removes_interaction k name) x h = remove-IsWellFormed env k name x h
  perform-IsWellFormed (sets_action_handler name f) x h =
      set_action_handler-IsWellFormed env name f x h
  perform-IsWellFormed (sets_read_handler name f) x h = set_read_handler-IsWellFormed env name f x h
  perform-IsWellFormed (sets_write_handler name f) x h =
      set_write_handler-IsWellFormed env name f x h
