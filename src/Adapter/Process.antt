-- ===== src/Adapter/Process.antt =====
-- `BecomeDaemon` of src/Adapter.cpp, as one process runs it and over all the processes that come from its
-- two calls of fork.
use ritex.Base.{
  ℕ, ◌+◌, ◌≡◌, ◌≢◌, refl, Bool, true, false, ◌&&◌, List, [], ◌∷◌, ◌++◌, if◌then◌else◌, arith,
}

pub data Fork : Type 0 where
  failed in_child in_parent : Fork

-- What the calls return to one process: whether the lock is bound, whether `setsid` succeeds, and whether
-- the three standard files are opened as they should.
pub record Calls : Type 0 where
  pub lock : Bool
  pub first_fork : Fork
  pub setsid : Bool
  pub second_fork : Fork
  pub standard_in : Bool
  pub standard_out : Bool
  pub standard_error : Bool

-- `gone` is the process between the two calls of fork, which exits.
pub data Context : Type 0 where
  context_error context_parent context_daemon gone : Context

-- The calls whose results are the same in every process.
pub record Setup : Type 0 where
  pub lock : Bool
  pub setsid : Bool
  pub standard_in : Bool
  pub standard_out : Bool
  pub standard_error : Bool

-- The code, over what a call of `fork` does with the code behind it and what the end of a process yields.
module _ {A : Type 0} (ends : Context → A) (first second : (Fork → A) → A) (s : Setup) where
  abbrev reopen_files : A
  reopen_files =
      if s.standard_in
      then (if s.standard_out
          then (if s.standard_error then ends context_daemon else ends context_error)
          else ends context_error)
      else ends context_error

  abbrev after_second : Fork → A
  after_second failed = ends context_error
  after_second in_child = reopen_files
  after_second in_parent = ends gone

  abbrev after_first : Fork → A
  after_first failed = ends context_error
  after_first in_child = if s.setsid then second after_second else ends context_error
  after_first in_parent = ends context_parent

  unfoldable pub become_daemon : A
  become_daemon = if s.lock then first after_first else ends context_parent

-- As one process sees it, which knows what its calls of `fork` return.
unfoldable pub become : Calls → Context
unfolding become_daemon
become c =
    become_daemon (λ context. context) (λ behind. behind c.first_fork)
      (λ behind. behind c.second_fork)
      (record {
        lock = c.lock;
        setsid = c.setsid;
        standard_in = c.standard_in;
        standard_out = c.standard_out;
        standard_error = c.standard_error;
      })

-- What the system does for all processes: whether each call succeeds.
pub record Host : Type 0 where
  pub lock : Bool
  pub first_fork : Bool
  pub setsid : Bool
  pub second_fork : Bool
  pub standard_in : Bool
  pub standard_out : Bool
  pub standard_error : Bool

-- The code behind `fork` runs in two processes, or where it fails in the one that called it.
abbrev forked : Bool → (Fork → List Context) → List Context
forked true behind = behind in_parent ++ behind in_child
forked false behind = behind failed

-- The contexts of all processes, from that of the user.
unfoldable pub contexts : Host → List Context
unfolding become_daemon
contexts h =
    become_daemon (λ context. context ∷ []) (forked h.first_fork) (forked h.second_fork)
      (record {
        lock = h.lock;
        setsid = h.setsid;
        standard_in = h.standard_in;
        standard_out = h.standard_out;
        standard_error = h.standard_error;
      })

abbrev pub daemons : List Context → ℕ
daemons [] = 0
daemons (context_daemon ∷ cs) = 1 + daemons cs
daemons (c ∷ cs) = daemons cs

-- All the calls succeed.
abbrev pub all_succeed : Host → Bool
all_succeed h =
    h.lock
    && (h.first_fork
        && (h.setsid && (h.second_fork && (h.standard_in && (h.standard_out && h.standard_error)))))

abbrev pub first_context : List Context → Context
first_context [] = gone
first_context (c ∷ cs) = c

abbrev host : Bool → Bool → Bool → Bool → Bool → Bool → Bool → Host
host lock first_fork setsid second_fork standard_in standard_out standard_error = record {
  lock = lock;
  first_fork = first_fork;
  setsid = setsid;
  second_fork = second_fork;
  standard_in = standard_in;
  standard_out = standard_out;
  standard_error = standard_error;
}

abbrev OneDaemon : Host → Type 0
OneDaemon h =
    (first_context (contexts h) ≢ context_daemon)
    × ((daemons (contexts h) ≡ (if all_succeed h then 1 else 0))
        × (h.lock ≡ false → contexts h ≡ context_parent ∷ []))

one_daemon : (l f s g i o e : Bool) → OneDaemon (host l f s g i o e)
unfolding contexts
one_daemon false f s g i o e = (λ x. ground (arith, x), (refl, λ x. refl))
one_daemon true false s g i o e = (λ x. ground (arith, x), (refl, λ x. ground (arith, x)))
one_daemon true true false g i o e = (λ x. ground (arith, x), (refl, λ x. ground (arith, x)))
one_daemon true true true false i o e = (λ x. ground (arith, x), (refl, λ x. ground (arith, x)))
one_daemon true true true true false o e = (λ x. ground (arith, x), (refl, λ x. ground (arith, x)))
one_daemon true true true true true false e =
    (λ x. ground (arith, x), (refl, λ x. ground (arith, x)))
one_daemon true true true true true true false =
    (λ x. ground (arith, x), (refl, λ x. ground (arith, x)))
one_daemon true true true true true true true =
    (λ x. ground (arith, x), (refl, λ x. ground (arith, x)))

-- Over all the processes that come from BecomeDaemon: that of the user never becomes the daemon;
-- one process becomes it where all the calls succeed, and none where one of them fails; and where
-- the lock is taken there is no other process than that of the user, and it is the parent.
pub contexts-daemons :
    (h : Host)
    → (first_context (contexts h) ≢ context_daemon)
      × ((daemons (contexts h) ≡ (if all_succeed h then 1 else 0))
          × (h.lock ≡ false → contexts h ≡ context_parent ∷ []))
contexts-daemons h =
    one_daemon h.lock h.first_fork h.setsid h.second_fork h.standard_in h.standard_out
      h.standard_error
