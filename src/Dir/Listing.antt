-- ===== src/Dir/Listing.antt =====
-- The listing of source/io/fs/Dir.cpp.
use mathlib.Core.Path.{subst}
use mathlib.Core.Bool.{false≢true}
use tarm_io.Prelude.{
  ◌⊎◌, ℕ, zero, suc, ◌+◌, arith, ltb, length, ◌≡◌, refl, sym, ap, ◌∙◌, inl, inr, Bool, true, false,
  not, none, List, [], ◌∷◌, if-true, if-false, if◌then◌else◌, ℤ, pos, negsuc, is_negative,
}
use tarm_io.Dir.{
  Dir, Request, UvDirent, DirectoryEntryType, convert_direntry_type, Reason, of_result, Event,
  called_entry, called_end_list, asks_read, logs, is_want_close, is_reading, list, end_list,
  on_read_dir_no_continuation, on_read_dir_with_continuation,
}

abbrev pub leaves : Dir → Dir
leaves s = s

-- The entries that the list callback was given, and the calls of the end callback.
abbrev pub given : List Event → List (ℕ × DirectoryEntryType)
given [] = []
given (called_entry n t ∷ es) = (n, t) ∷ given es
given (e ∷ es) = given es

abbrev pub ends : List Event → List Reason
ends [] = []
ends (called_end_list r ∷ es) = r ∷ ends es
ends (e ∷ es) = ends es

-- How often libuv was asked for an entry.
abbrev pub asks : List Event → ℕ
asks [] = 0
asks (asks_read ∷ es) = suc (asks es)
asks (e ∷ es) = asks es

abbrev pub both : Request
both = record { list_callback = true; end_list_callback = true }

-- libuv reads these entries, each when it is asked for one; `k` is how often it has answered.
pub on_entries : ℕ → List (ℕ × UvDirent) → Dir → Dir
on_entries k [] s = s
on_entries k ((n, t) ∷ es) s =
    let rest = on_entries (suc k) es (on_read_dir_no_continuation leaves both (pos 1) n t s) in
    if ltb k (asks s.log) then rest else s

-- The same with a continuation, until the callback stops it; the Boolean is that it does not.
pub on_entries_until : ℕ → List (Bool × ℕ × UvDirent) → Dir → Dir
on_entries_until k [] s = s
on_entries_until k ((p, n, t) ∷ es) s =
    let next = on_read_dir_with_continuation leaves p both (pos 1) n t s in
    let rest = on_entries_until (suc k) es next in if ltb k (asks s.log) then rest else s

-- In front of a log, the newest first.
abbrev pub newest_first :
    List (ℕ × UvDirent) → List (ℕ × DirectoryEntryType) → List (ℕ × DirectoryEntryType)
newest_first [] l = l
newest_first ((n, t) ∷ es) l = newest_first es ((n, convert_direntry_type t) ∷ l)

-- The entries up to the first at which the callback stops, with it.
abbrev pub until_stopped : List (Bool × ℕ × UvDirent) → List (ℕ × UvDirent)
until_stopped [] = []
until_stopped ((p, n, t) ∷ es) = (n, t) ∷ (if p then until_stopped es else [])

abbrev pub all_proceed : List (Bool × ℕ × UvDirent) → Bool
all_proceed [] = true
all_proceed ((p, n, t) ∷ es) = if p then all_proceed es else false

-- Being listed, with these entries and ends so far.
abbrev IsListing : ℕ → List (ℕ × DirectoryEntryType) → List Reason → Dir → Type 0
IsListing k l rs s =
    (is_want_close s.state ≡ false)
    × (is_reading s.read_request ≡ true)
    × (given s.log ≡ l)
    × (ends s.log ≡ rs)
    × (asks s.log ≡ suc k)

on_entry-IsListing :
    (k n : ℕ) (t : UvDirent) (l : List (ℕ × DirectoryEntryType)) (rs : List Reason) (s : Dir)
    → IsListing k l rs s
    → IsListing
        (suc k)
        ((n, convert_direntry_type t) ∷ l)
        rs
        (on_read_dir_no_continuation leaves both (pos 1) n t s)
unfolding on_read_dir_no_continuation
on_entry-IsListing k n t l rs s h =
    subst (IsListing (suc k) ((n, convert_direntry_type t) ∷ l) rs) (sym (if-true _ _ (ap not h.0)))
      (h.0, h.1, ap (λ m. (n, convert_direntry_type t) ∷ m) h.2, h.3, ap suc h.4)

is_asked : (k : ℕ) (s : Dir) → asks s.log ≡ suc k → ltb k (asks s.log) ≡ true
is_asked k s e = ground (arith, e)

on_entries-IsListing :
    (k : ℕ) (es : List (ℕ × UvDirent)) (l : List (ℕ × DirectoryEntryType)) (rs : List Reason)
    (s : Dir)
    → IsListing k l rs s
    → IsListing (k + length es) (newest_first es l) rs (on_entries k es s)
unfolding on_entries
on_entries-IsListing k [] l rs s h = (h.0, h.1, h.2, h.3, omega (arith, h.4))
on_entries-IsListing k ((n, t) ∷ es) l rs s h =
    let next = on_read_dir_no_continuation leaves both (pos 1) n t s in
    let i =
      on_entries-IsListing (suc k) es ((n, convert_direntry_type t) ∷ l) rs next
        (on_entry-IsListing k n t l rs s h) in
    subst (IsListing (k + suc (length es)) (newest_first es ((n, convert_direntry_type t) ∷ l)) rs)
      (sym (if-true _ _ (is_asked k s h.4))) (i.0, i.1, i.2, i.3, omega (arith, i.4))

list-IsListing :
    (s : Dir)
    → s.has_uv_dir ≡ true
    → s.read_request ≡ none
    → is_want_close s.state ≡ false
    → IsListing (asks s.log) (given s.log) (ends s.log) (list leaves both (pos 0) s)
unfolding list
list-IsListing s o r w =
    subst (IsListing (asks s.log) (given s.log) (ends s.log))
      (sym (if-false _ _ (ap not o) ∙ if-false _ _ (ap is_reading r))) (w, refl, refl, refl, refl)

-- libuv has no more entries, or fails.
abbrev pub IsEnd : ℤ → Type 0
IsEnd result = (is_negative result ≡ true) ⊎ (result ≡ pos 0)

not-IsEnd : (m : ℕ) → IsEnd (pos (suc m)) → ⊥
not-IsEnd m (inl x) = false≢true x
not-IsEnd m (inr x) = cc

abbrev IsEnded : List (ℕ × DirectoryEntryType) → List Reason → Dir → Type 0
IsEnded l rs s = (given s.log ≡ l) × (ends s.log ≡ rs) × (s.read_request ≡ none)

end_list-IsEnded :
    (k : ℕ) (result : ℤ) (l : List (ℕ × DirectoryEntryType)) (rs : List Reason) (s : Dir)
    → IsListing k l rs s
    → IsEnded l (of_result result ∷ rs) (end_list leaves both result s)
unfolding end_list
end_list-IsEnded k result l rs s h = (h.2, ap (λ m. of_result result ∷ m) h.3, refl)

ended :
    (k : ℕ) (result : ℤ) (n : ℕ) (u : UvDirent) (l : List (ℕ × DirectoryEntryType))
    (rs : List Reason) (s : Dir)
    → IsEnd result
    → IsListing k l rs s
    → IsEnded l (of_result result ∷ rs) (on_read_dir_no_continuation leaves both result n u s)
unfolding on_read_dir_no_continuation
ended k (negsuc m) n u l rs s f h = end_list-IsEnded k (negsuc m) l rs s h
ended k (pos zero) n u l rs s f h = end_list-IsEnded k (pos 0) l rs s h
ended k (pos (suc m)) n u l rs s f h = absurd (not-IsEnd m f)

-- A listing of an open directory that is not being listed and that nobody has asked to close, both callbacks given and doing nothing to
-- the directory, where libuv reads an entry only when it is asked for one: every entry is given to the list callback
-- once, in libuv's order and with its type, libuv is asked once for each and once more, and when it then has no more of them or
-- fails, the end callback is called once, with its result, and another listing can begin.
pub list-given :
    (es : List (ℕ × UvDirent)) (result : ℤ) (n : ℕ) (u : UvDirent) (s : Dir)
    → IsEnd result
    → s.has_uv_dir ≡ true
    → s.read_request ≡ none
    → is_want_close s.state ≡ false
    → let t = on_entries (asks s.log) es (list leaves both (pos 0) s) in
      let e = on_read_dir_no_continuation leaves both result n u t in
      (is_reading t.read_request ≡ true)
      × (asks t.log ≡ suc (asks s.log + length es))
      × (given e.log ≡ newest_first es (given s.log))
      × (ends e.log ≡ of_result result ∷ ends s.log)
      × (e.read_request ≡ none)
list-given es result n u s f o r w =
    let h =
      on_entries-IsListing (asks s.log) es (given s.log) (ends s.log) _ (list-IsListing s o r w) in
    let t = on_entries (asks s.log) es (list leaves both (pos 0) s) in
    let e = ended (asks s.log + length es) result n u _ _ t f h in (h.1, h.4, e.0, e.1, e.2)

-- Nothing is asked for once the listing was stopped.
on_entries_until_idle :
    (k : ℕ) (es : List (Bool × ℕ × UvDirent)) (s : Dir)
    → ltb k (asks s.log) ≡ false
    → on_entries_until k es s ≡ s
unfolding on_entries_until
on_entries_until_idle k [] s e = refl
on_entries_until_idle k ((p, n, t) ∷ es) s e = if-false _ _ e

-- The entries that are read with a continuation.
entries_until :
    (k : ℕ) (es : List (Bool × ℕ × UvDirent)) (l : List (ℕ × DirectoryEntryType)) (rs : List Reason)
    (s : Dir)
    → IsListing k l rs s
    → (given (on_entries_until k es s).log ≡ newest_first (until_stopped es) l)
      × (is_reading (on_entries_until k es s).read_request ≡ all_proceed es)
      × (ends (on_entries_until k es s).log
          ≡ (if all_proceed es then rs else of_result (pos 1) ∷ rs))
      × (asks (on_entries_until k es s).log
          ≡ k + length (until_stopped es) + (if all_proceed es then 1 else 0))
unfolding on_entries_until on_read_dir_with_continuation end_list
entries_until k [] l rs s h = (h.2, h.1, h.3, omega (arith, h.4))
entries_until k ((true, n, t) ∷ es) l rs s h =
    let next : Dir = logs asks_read (logs (called_entry n (convert_direntry_type t)) s) in
    let m = ap (λ m. (n, convert_direntry_type t) ∷ m) h.2 in
    let ih =
      entries_until (suc k) es ((n, convert_direntry_type t) ∷ l) rs next
        (h.0, h.1, m, h.3, ap suc h.4) in
    let q = if-true (on_entries_until (suc k) es next) s (is_asked k s h.4) in
    (
      ap (λ (x : Dir). given x.log) q ∙ ih.0,
      ap (λ (x : Dir). is_reading x.read_request) q ∙ ih.1,
      ap (λ (x : Dir). ends x.log) q ∙ ih.2,
      ap (λ (x : Dir). asks x.log) q ∙ ih.3 ∙ omega arith,
    )
entries_until k ((false, n, t) ∷ es) l rs s h =
    let next : Dir = record s {
      read_request = none;
      log = called_end_list (of_result (pos 1)) ∷ called_entry n (convert_direntry_type t) ∷ s.log;
    } in
    let idle : ltb (suc k) (asks next.log) ≡ false = ground (arith, h.4) in
    let q =
      if-true (on_entries_until (suc k) es next) s (is_asked k s h.4)
      ∙ on_entries_until_idle (suc k) es next idle in
    (
      ap (λ (x : Dir). given x.log) q ∙ ap (λ m. (n, convert_direntry_type t) ∷ m) h.2,
      ap (λ (x : Dir). is_reading x.read_request) q,
      ap (λ (x : Dir). ends x.log) q ∙ ap (λ m. of_result (pos 1) ∷ m) h.3,
      ap (λ (x : Dir). asks x.log) q ∙ omega (arith, h.4),
    )

-- The same with a continuation: the list callback is given the entries in order up to the first at which
-- it stops, with it. If it stops then the end callback is called once, another listing can begin and libuv is asked
-- for no more; else the listing goes on and libuv is asked for the next entry.
pub list-until_stopped :
    (es : List (Bool × ℕ × UvDirent)) (s : Dir)
    → s.has_uv_dir ≡ true
    → s.read_request ≡ none
    → is_want_close s.state ≡ false
    → let t = on_entries_until (asks s.log) es (list leaves both (pos 0) s) in
      (given t.log ≡ newest_first (until_stopped es) (given s.log))
      × (is_reading t.read_request ≡ all_proceed es)
      × (ends t.log ≡ (if all_proceed es then ends s.log else of_result (pos 1) ∷ ends s.log))
      × (asks t.log ≡ asks s.log + length (until_stopped es) + (if all_proceed es then 1 else 0))
list-until_stopped es s o r w =
    entries_until (asks s.log) es (given s.log) (ends s.log) _ (list-IsListing s o r w)
