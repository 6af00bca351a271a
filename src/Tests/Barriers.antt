-- ===== src/Tests/Barriers.antt =====
-- Witnesses for the barrier of a view: a counter message reaches the target.
use natsstore.Base.{◌≡◌, refl, none, some, List, [], ◌∷◌, ◌++◌}
use natsstore.Base.Bytes.{bytes, bytes_eq, cut_prefix}
use natsstore.Base.Outcome.{ok}
use natsstore.Subject.{encode_stream}
use natsstore.Ordered.Codec.{classify_ordered_subject, ordered_namespace_prefix, cut}
use natsstore.Ordered.View.{View, Stats, new_ordered_view, apply_message, fold_message, advance}
use natsstore.Ordered.View.Invariant.Messages.{Message}
use natsstore.Ordered.View.Barrier.{Moment, stopped, sleep, wait_barrier}
use natsstore.Ordered.View.Barrier.Caught.{
  deliver_all, moments_of, views_of, Returned, SomeCaught, wait_barrier_caught_up,
  wait_barrier-SomeCaught,
}
use natsstore.Tests.{storage, enc}

abbrev no_stats : Stats
no_stats = record {
  messages_applied = 0;
  index_visited = 0;
  records_copied = 0;
  stream_tip_reads = 0;
}

abbrev start_view : View
start_view = new_ordered_view (bytes "n") no_stats

abbrev counted : Message
counted = record { subject = bytes "OI.n.c.s"; seq = 5; payload = bytes "1" }

abbrev batches : List (List Message)
batches = [] ∷ (counted ∷ []) ∷ []

abbrev later : List Moment
later = stopped start_view ∷ []

wait_barrier_caught_up_example :
    Returned
      (deliver_all storage enc batches start_view).fatal
      (wait_barrier 5 none start_view (moments_of storage enc batches start_view ++ later))
wait_barrier_caught_up_example = wait_barrier_caught_up storage enc 5 batches start_view later refl

passed :
    wait_barrier 5 none start_view (moments_of storage enc batches start_view ++ later)
    ≡ some (ok tt)
unfolding wait_barrier sleep apply_message fold_message advance classify_ordered_subject
    ordered_namespace_prefix cut cut_prefix bytes_eq encode_stream
passed = refl

wait_barrier-SomeCaught_example :
    SomeCaught 5 (views_of start_view (moments_of storage enc batches start_view ++ later))
wait_barrier-SomeCaught_example =
    wait_barrier-SomeCaught 5 none start_view (moments_of storage enc batches start_view ++ later)
      passed
