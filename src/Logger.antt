-- ===== src/Logger.antt =====
-- The queue of a logger: `EnqueData` and `Run` of src/LoggerThread.hpp, whose thread takes what the other
-- threads put into the queue, a transaction at a time. The steps are those between two releases of
-- `m_queueMutex`; the gateway is not read, so what it does with an item is left out.
pub mod Laws
pub mod Records
pub mod Dates
pub mod Examples
use ritex.Base.{ℕ, zero, suc, List, [], ◌∷◌, ◌++◌, ◌≡◌, length}

-- Where the thread is: in front of the wait, inside a transaction with so many items still to take, or
-- behind the `break` that leaves the mutex locked.
pub data Phase : Type 0 where
  waiting : Phase
  writing : ℕ → Phase
  locked : Phase

-- `pushed` is what was handed to `BindParams`.
pub record Logger (A : Type 0) : Type 0 where
  pub phase : Phase
  pub queue : List A
  pub pushed : List A

module _ {A : Type 0} where
  abbrev pub empty : Logger A
  empty = record { phase = waiting; queue = []; pushed = [] }

  unfoldable pub enque_data : A → Logger A → Logger A
  enque_data item s = record s { queue = s.queue ++ (item ∷ []) }

  -- The wait ends where the queue is not empty, and the size of the transaction is that of the queue.
  abbrev pub begin_with : List A → Logger A → Logger A
  begin_with [] s = s
  begin_with (item ∷ items) s = record s { phase = writing (suc (length items)) }

  -- A round of the loop over the transaction.
  abbrev pub take_front : ℕ → List A → Logger A → Logger A
  take_front left [] s = record s { phase = locked }
  take_front left (item ∷ items) s = record s {
    phase = writing left;
    queue = items;
    pushed = s.pushed ++ (item ∷ []);
  }

  -- What the thread does next.
  abbrev pub go_in : Phase → Logger A → Logger A
  go_in waiting s = begin_with s.queue s
  go_in (writing zero) s = record s { phase = waiting }
  go_in (writing (suc left)) s = take_front left s.queue s
  go_in locked s = s

  unfoldable pub go : Logger A → Logger A
  go s = go_in s.phase s

  -- The steps of all threads, with what was put into the queue.
  pub data Reach : List A → Logger A → Type 0 where
    start : Reach [] empty
    enqued :
        {given : List A} {s : Logger A} (item : A)
        → Reach given s
        → Reach (given ++ (item ∷ [])) (enque_data item s)
    went : {given : List A} {s : Logger A} → Reach given s → Reach given (go s)
