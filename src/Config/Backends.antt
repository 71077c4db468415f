-- ===== src/Config/Backends.antt =====
-- The event backend of the configuration: as_ev_backend, ev_backend_to_string,
-- is_supported_backend and validate_event_backend of src/libpgexporter/configuration.c.
use pgexporter.Prelude.{
  ◌≡◌, ◌≢◌, ◌⊎◌, refl, arith, Bool, true, false, not, ◌&&◌, [], Option, none, some, if◌then◌else◌,
  take,
}
use pgexporter.Text.{Bytes, same, same_case, codes}
use pgexporter.Config.{is_empty, misc_length}

-- enum ev_backend
pub data Backend : Type 0 where
  invalid : Backend
  empty : Backend
  auto : Backend
  io_uring : Backend
  epoll : Backend
  kqueue : Backend

-- The switches of the build: HAVE_LINUX and HAVE_IO_URING.
pub record Build : Type 0 where
  pub have_linux : Bool
  pub have_io_uring : Bool

-- strncasecmp(s, word, MISC_LENGTH) is 0.
abbrev pub starts_same_case : Bytes → Bytes → Bool
starts_same_case s word = same_case (take misc_length s) (take misc_length word)

unfoldable pub as_ev_backend : Option Bytes → Backend
unfolding same_case is_empty
as_ev_backend none = empty
as_ev_backend (some s) =
    if is_empty s
    then empty
    else (if starts_same_case s (codes "auto")
        then auto
        else (if starts_same_case s (codes "io_uring")
            then io_uring
            else (if starts_same_case s (codes "epoll")
                then epoll
                else (if starts_same_case s (codes "kqueue") then kqueue else invalid))))

unfoldable pub ev_backend_to_string : Backend → Bytes
ev_backend_to_string auto = codes "auto"
ev_backend_to_string io_uring = codes "io_uring"
ev_backend_to_string epoll = codes "epoll"
ev_backend_to_string kqueue = codes "kqueue"
ev_backend_to_string empty = []
ev_backend_to_string invalid = codes "unknown"

unfoldable pub is_supported_backend : Build → Backend → Bool
is_supported_backend b io_uring = b.have_linux && b.have_io_uring
is_supported_backend b epoll = b.have_linux
is_supported_backend b kqueue = not b.have_linux
is_supported_backend b other = false

-- DEFAULT_EVENT_BACKEND
abbrev pub default_backend : Build → Backend
default_backend b = if b.have_linux then epoll else kqueue

-- The last test of validate_event_backend: `disabled` is the first character of
-- /proc/sys/kernel/io_uring_disabled, `none` where the file cannot be opened.
abbrev pub check_kernel : Build → Option Bool → Backend → Backend
check_kernel b disabled io_uring =
    if b.have_linux && b.have_io_uring
    then elim disabled [ none ↦ epoll | some off ↦ if off then epoll else io_uring ]
    else io_uring
check_kernel b disabled other = other

abbrev pub with_auto : Backend → Backend
with_auto invalid = auto
with_auto empty = auto
with_auto other = other

abbrev pub choose_supported : Build → Backend → Backend
choose_supported b auto = default_backend b
choose_supported b other = if is_supported_backend b other then other else default_backend b

unfoldable pub validate_event_backend : Build → Option Bool → Backend → Backend
unfolding is_supported_backend
validate_event_backend b disabled backend =
    check_kernel b disabled (choose_supported b (with_auto backend))

-- The name of every event backend is read as that backend.
pub as_ev_backend-to_string :
    (backend : Backend) → as_ev_backend (some (ev_backend_to_string backend)) ≡ backend
unfolding as_ev_backend ev_backend_to_string same_case is_empty same
as_ev_backend-to_string invalid = refl
as_ev_backend-to_string empty = refl
as_ev_backend-to_string auto = refl
as_ev_backend-to_string io_uring = refl
as_ev_backend-to_string epoll = refl
as_ev_backend-to_string kqueue = refl

chosen_supported :
    (b : Build) (disabled : Option Bool) (backend : Backend)
    → is_supported_backend b (validate_event_backend b disabled backend) ≡ true
unfolding validate_event_backend is_supported_backend
chosen_supported b disabled backend = ground arith

chosen_again :
    (b : Build) (disabled : Option Bool) (backend : Backend)
    → validate_event_backend b disabled (validate_event_backend b disabled backend)
      ≡ validate_event_backend b disabled backend
unfolding validate_event_backend is_supported_backend
chosen_again b disabled backend = ground arith

chosen_io_uring :
    (b : Build) (disabled : Option Bool) (backend : Backend)
    → (validate_event_backend b disabled backend ≢ io_uring)
      ⊎ ((backend ≡ io_uring) × (disabled ≡ some false))
unfolding validate_event_backend is_supported_backend
chosen_io_uring b disabled backend = ground arith

-- Whatever the build, the kernel and the backend read: the backend that is chosen is supported by
-- the build, it is io_uring only where io_uring itself (not auto) was read and the kernel does not
-- disable it, and it stays when it is validated again.
pub validate-supported :
    (b : Build) (disabled : Option Bool) (backend : Backend)
    → (is_supported_backend b (validate_event_backend b disabled backend) ≡ true)
      × ((validate_event_backend b disabled backend ≢ io_uring)
          ⊎ ((backend ≡ io_uring) × (disabled ≡ some false)))
      × (validate_event_backend b disabled (validate_event_backend b disabled backend)
          ≡ validate_event_backend b disabled backend)
validate-supported b disabled backend = (
  chosen_supported b disabled backend,
  chosen_io_uring b disabled backend,
  chosen_again b disabled backend,
)
