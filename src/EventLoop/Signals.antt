-- ===== src/EventLoop/Signals.antt =====
-- The signal handlers of source/io/EventLoop.cpp, for one signal: the map keeps one handler for each
-- signal. libuv is documented to call `on_signal` for a signal as long as the handler is started.
use mathlib.Core.Path.{subst}
use tarm_io.Prelude.{
  ℕ, zero, suc, ◌≡◌, refl, sym, ap, ◌∙◌, Bool, true, false, not, Option, none, some, List, [], ◌∷◌,
  ◌++◌, if◌then◌else◌, if-false, ◌==◌,
}
use tarm_io.StatusCode.{StatusCode, number, ok, invalid_argument}

pub data Signal : Type 0 where
  int hup winch : Signal
  other : ℕ → Signal

pub data Continuity : Type 0 where
  once repeat : Continuity

pub record Handler : Type 0 where
  pub started : Bool
  pub continuity : Continuity
  pub callback : ℕ

-- Whether the signal has a number.
abbrev pub uv_signal_from_enum : Signal → Bool
uv_signal_from_enum int = true
uv_signal_from_enum hup = true
uv_signal_from_enum winch = true
uv_signal_from_enum (other n) = false

abbrev is_ok : StatusCode → Bool
is_ok c = number c == 0

-- A handler that stays in the map when it could not be initialised or started.
abbrev new_handler : Handler
new_handler = record { started = false; continuity = once; callback = 0 }

-- `ensured` is the handler that the map has, or a new one.
abbrev ensured : Option Handler → Handler
ensured none = new_handler
ensured (some h) = h

abbrev init_fails : Option Handler → StatusCode → Bool
init_fails none init_status = not (is_ok init_status)
init_fails (some h) init_status = false

pub add_signal_handler :
    Option Handler
    → Signal
    → Option ℕ
    → Continuity
    → StatusCode
    → StatusCode
    → Option Handler × StatusCode
add_signal_handler h signal none continuity init_status start_status = (h, invalid_argument)
add_signal_handler h signal (some callback) continuity init_status start_status =
    if not (uv_signal_from_enum signal)
    then (h, invalid_argument)
    else if init_fails h init_status
    then (some new_handler, init_status)
    else let set : Handler = record {
      started = (ensured h).started;
      continuity = continuity;
      callback = callback;
    } in
      if is_ok start_status
      then (some (record set { started = true }), ok)
      else (some set, start_status)

pub remove_signal_handler : Option Handler → Option Handler
remove_signal_handler none = none
remove_signal_handler (some h) = some (record h { started = false })

abbrev pub keeps_on : Continuity → Bool
keeps_on once = false
keeps_on repeat = true

-- A signal arrives: the callbacks that are called, and the handler afterwards.
pub on_signal : Option Handler → Option Handler × List ℕ
on_signal none = (none, [])
on_signal (some h) =
    if h.started
    then (some (record h { started = keeps_on h.continuity }), h.callback ∷ [])
    else (some h, [])

pub signals : ℕ → Option Handler → List ℕ
signals zero h = []
signals (suc n) h = (on_signal h).1 ++ signals n (on_signal h).0

-- The calls that `n` signals ask for.
abbrev pub asked : Continuity → ℕ → ℕ → List ℕ
asked c zero f = []
asked once (suc n) f = f ∷ []
asked repeat (suc n) f = f ∷ asked repeat n f

still : (n : ℕ) (h : Handler) → h.started ≡ false → signals n (some h) ≡ []
unfolding signals on_signal
still zero h e = refl
still (suc n) h e =
    let shut =
      if-false (some (record h { started = keeps_on h.continuity }), h.callback ∷ []) (some h, [])
        e in
    ap (λ (r : Option Handler × List ℕ). r.1 ++ signals n r.0) shut ∙ still n h e

signals-started :
    (n : ℕ) (c : Continuity) (f : ℕ)
    → signals n (some (record { started = true; continuity = c; callback = f })) ≡ asked c n f
unfolding signals on_signal
signals-started zero c f = refl
signals-started (suc n) once f =
    ap (λ l. f ∷ l) (still n (record { started = false; continuity = once; callback = f }) refl)
signals-started (suc n) repeat f = ap (λ l. f ∷ l) (signals-started n repeat f)

-- A handler that was added is called for each signal, or for the first one alone if it is added for
-- one, whatever handler the signal had before; and for none once it was removed. The signal is one
-- that the loop knows, and libuv accepts it.
pub signals-add_signal_handler :
    (n f : ℕ) (h : Option Handler) (signal : Signal) (c : Continuity)
    → uv_signal_from_enum signal ≡ true
    → let r = add_signal_handler h signal (some f) c ok ok in
      (r.1 ≡ ok) × (signals n r.0 ≡ asked c n f) × (signals n (remove_signal_handler r.0) ≡ [])
unfolding add_signal_handler remove_signal_handler
signals-add_signal_handler n f h signal c e =
    subst Good (sym (if-false _ _ (ap not e) ∙ if-false _ _ (inits h))) (
      refl,
      signals-started n c f,
      still n (record { started = false; continuity = c; callback = f }) refl,
    )
  where
    Good : Option Handler × StatusCode → Type 0
    Good r =
        (r.1 ≡ ok) × (signals n r.0 ≡ asked c n f) × (signals n (remove_signal_handler r.0) ≡ [])

    inits : (k : Option Handler) → init_fails k ok ≡ false
    inits none = refl
    inits (some k) = refl
