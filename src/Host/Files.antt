-- ===== src/Host/Files.antt =====
-- Files: what the agent's file system holds. Directories are not modelled: a path is asked about
-- where a file may stand.
use vasal.Prelude.{
  ℕ, Option, none, some, Bool, true, false, str_eq, eq_iff, if◌then◌else◌, ◌≡◌, ◌≢◌, refl, FilePath,
  Bool-cases, inl, inr,
}
use vasal.Codec.{Bytes}

pub record Node : Type 0 where
  pub content : Bytes
  pub mode : ℕ

abbrev pub Files : Type 0
Files = FilePath → Option Node

unfoldable pub put : FilePath → Node → Files → Files
put path node files = λ p. if str_eq p path then some node else files p

unfoldable pub drop_file : FilePath → Files → Files
drop_file path files = λ p. if str_eq p path then none else files p

-- A created file has the mode that the umask leaves; a file that stands there keeps its own.
unfoldable pub mode_or : ℕ → Option Node → ℕ
mode_or created none = created
mode_or created (some node) = node.mode

abbrev pub is_there : Option Node → Bool
is_there none = false
is_there (some node) = true

pub str_eq_self : (p : FilePath) → str_eq p p ≡ true
str_eq_self p = (eq_iff p p).1 refl

pub str_eq_other : (p q : FilePath) → p ≢ q → str_eq p q ≡ false
str_eq_other p q h = elim (Bool-cases (str_eq p q)) [
  | inl e ↦ absurd (h ((eq_iff p q).0 e))
  | inr e ↦ e
]

pub put-here : (p : FilePath) (n : Node) (fs : Files) → put p n fs p ≡ some n
unfolding put
put-here p n fs = rw (str_eq_self p)

pub put-there : (p q : FilePath) (n : Node) (fs : Files) → q ≢ p → put p n fs q ≡ fs q
unfolding put
put-there p q n fs h = rw (str_eq_other q p h)

pub drop_file-here : (p : FilePath) (fs : Files) → drop_file p fs p ≡ none
unfolding drop_file
drop_file-here p fs = rw (str_eq_self p)

pub drop_file-there : (p q : FilePath) (fs : Files) → q ≢ p → drop_file p fs q ≡ fs q
unfolding drop_file
drop_file-there p q fs h = rw (str_eq_other q p h)
