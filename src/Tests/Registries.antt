-- ===== src/Tests/Registries.antt =====
-- A witness for the registry of views: the registered view has an error that a repair has removed, so the
-- query retires it and reads a new one.
use natsstore.Base.{ℕ, ◌≡◌, refl, false, none, some, [], ◌∷◌, ◌==◌, if◌then◌else◌}
use natsstore.Base.Bytes.{bytes, bytes_eq, bytes_Eq}
use natsstore.Base.Dict.{find, put, remove}
use natsstore.Base.Outcome.{ok, pure}
use natsstore.Subject.{encode_stream}
use natsstore.Ordered.Errors.{stream_config, other_layout}
use natsstore.Ordered.Codec.{ordered_stream_name, ordered_subject_filter, ordered_namespace_prefix}
use natsstore.Ordered.Registry.{
  Registry, ViewCalls, wait_for, ordered_namespace_spec, acquire_view, evict_repairable_fatal,
  await_tip, ready_acquired_view, ready_view,
}
use natsstore.Ordered.View.{View, new_ordered_view}
use natsstore.Ordered.View.Barrier.{shows, sleep, wait_barrier}
use natsstore.Ordered.Registry.Ready.{Ready, ready_view-Ready}
use natsstore.Tests.{storage}

abbrev reading : View
reading =
    new_ordered_view (bytes "n")
      (record { messages_applied = 0; index_visited = 0; records_copied = 0; stream_tip_reads = 0 })

abbrev failed : View
failed = record reading { fatal = some (stream_config (bytes "OI_n") other_layout) }

abbrev reached : View
reached = record reading { watermark = 5; generation = 1 }

-- View 3 is the broken one; a new view is 7, and reaches the tip while the query waits.
abbrev calls : ViewCalls ℕ ℕ
calls = record {
  start = λ ns spec w. (7, w);
  same = λ a b. a == b;
  stream_of = λ view. bytes "OI_n";
  view_of = λ view w. if view == 3 then failed else reading;
  stream_tip = λ stream. pure 5;
  ended = λ w. none;
  moments = λ view w. (shows reached ∷ [], w);
  at_last = λ w. 0;
  await_done = λ view. pure tt;
  cancel = λ view w. w;
  stop = λ view. pure tt;
}

abbrev broken : Registry ℕ ℕ
broken = record { closed = false; views = (bytes "n", 3) ∷ []; tip_reads = 0; world = 0 }

replaced : (ready_view storage calls (bytes "n") broken).0 ≡ ok 7
unfolding wait_for wait_barrier sleep ready_view ready_acquired_view acquire_view
    evict_repairable_fatal await_tip ordered_namespace_spec ordered_stream_name
    ordered_subject_filter ordered_namespace_prefix find put remove bytes_eq encode_stream
replaced = refl

ready_view-Ready_example : Ready storage calls 7 (ready_view storage calls (bytes "n") broken).1
ready_view-Ready_example = ready_view-Ready storage calls (bytes "n") broken 7 replaced
