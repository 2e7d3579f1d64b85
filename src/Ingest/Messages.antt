-- ===== src/Ingest/Messages.antt =====
-- services/ingestion-worker/app/processing.py: the handling of one message and of its redeliveries.
pub mod Delivered
pub mod Unseen
use nexus_rag.Base.{
  ℕ, zero, suc, ◌+◌, ◌/◌, ◌%◌, String, Bool, true, false, Option, none, some, List, [], ◌∷◌, leb,
  ltb, if◌then◌else◌,
}
use Prim.Native.String.{◌++◌}
use nexus_rag.Document.{Uuid, Time, Document}
use nexus_rag.Vector.Client.{Client}
use nexus_rag.Database.{AuditLogEntry, exhausted_entry}
use nexus_rag.Curation.World.{World}
use nexus_rag.Ingest.Claim.{Delivery}
use nexus_rag.Ingest.Prepare.{Worker}
use nexus_rag.Ingest.Writes.{
  Timeline, Outcome, terminal, transient, escaped, change_row, failed_row,
}
use nexus_rag.Ingest.Job.{process_document}

abbrev pub max_delivery_attempts : ℕ
max_delivery_attempts = 5

-- ACK_WAIT_SECONDS, in microseconds
abbrev pub ack_wait : Time
ack_wait = 300000000

abbrev digit : ℕ → String
digit zero = "0"
digit (suc zero) = "1"
digit (suc (suc zero)) = "2"
digit (suc (suc (suc zero))) = "3"
digit (suc (suc (suc (suc zero)))) = "4"
digit (suc (suc (suc (suc (suc zero))))) = "5"
digit (suc (suc (suc (suc (suc (suc zero)))))) = "6"
digit (suc (suc (suc (suc (suc (suc (suc zero))))))) = "7"
digit (suc (suc (suc (suc (suc (suc (suc (suc zero)))))))) = "8"
digit _ = "9"

-- `str(n)`, with more fuel than digits
decimal_from : ℕ → ℕ → String
decimal_from zero n = ""
decimal_from (suc f) n =
    let front = decimal_from f (n / 10) in if ltb n 10 then digit n else front ++ digit (n % 10)

unfoldable decimal : ℕ → String
unfolding decimal_from
decimal n = decimal_from (n + 1) n

-- What a message meets: the clock of its delivery, the course of its job, and the last commit.
pub record Round : Type 0 where
  pub now : Time
  pub timeline : Timeline
  pub marked_at : Time
  pub mark_commits : Bool

-- `ack`, `term`, `nak`, and no answer, since an exception left the handler
pub data Answer : Type 0 where
  acked terminated naked unanswered : Answer

unfoldable pub undeliverable_text : ℕ → String
unfolding decimal
undeliverable_text attempts =
    "processing failed after "
    ++ decimal attempts
    ++ " delivery attempts; see ingestion-worker logs"

abbrev pub undeliverable_entry : ℕ → Time → Document → AuditLogEntry
undeliverable_entry attempts now row = record {
  actor_sub = row.uploader_sub;
  actor_username = row.uploader_username;
  action = exhausted_entry (undeliverable_text attempts) attempts;
  target_id = row.id;
  created_at = now;
}

abbrev pub delivery : Round → ℕ → Delivery
delivery r attempt = record { attempt = attempt; now = r.now; ack_wait = ack_wait }

module _ (c : Client) where
  -- `_mark_undeliverable`, which swallows what its commit raises
  unfoldable pub mark_undeliverable : Round → Uuid → ℕ → World c.State → World c.State
  unfolding undeliverable_text
  mark_undeliverable r id attempts s =
      if r.mark_commits
      then record s {
        db =
            change_row (failed_row r.marked_at (undeliverable_text attempts))
              (λ row. undeliverable_entry attempts r.marked_at row ∷ []) id s.db;
      }
      else s

  abbrev pub answer : Round → ℕ → Uuid → Outcome × World c.State → Answer × World c.State
  answer r attempts id (terminal, s) = (acked, s)
  answer r attempts id (escaped, s) = (unanswered, s)
  answer r attempts id (transient, s) =
      if leb max_delivery_attempts attempts
      then (terminated, mark_undeliverable r id attempts s)
      else (naked, s)

  -- `_handle_message`, with the document id that the payload gives, if it gives one
  unfoldable pub handle_message :
      Worker → Round → ℕ → Option Uuid → World c.State → Answer × World c.State
  unfolding mark_undeliverable
  handle_message w r attempt none s = (terminated, s)
  handle_message w r attempt (some id) s =
      answer r attempt id (process_document c w r.timeline (delivery r attempt) id s)

  abbrev pub answered :
      (World c.State → Option (World c.State)) → Answer × World c.State → Option (World c.State)
  answered again (acked, s) = some s
  answered again (terminated, s) = some s
  answered again (naked, s) = again s
  answered again (unanswered, s) = again s

  -- One message through its deliveries, the first of them with number `attempt`; `none` if it is
  -- still without an answer after all of them.
  unfoldable pub handle_deliveries :
      Worker → List Round → ℕ → Option Uuid → World c.State → Option (World c.State)
  unfolding handle_message
  handle_deliveries w [] attempt id s = none
  handle_deliveries w (r ∷ rs) attempt id s =
      answered (handle_deliveries w rs (attempt + 1) id) (handle_message w r attempt id s)
