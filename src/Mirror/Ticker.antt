-- ===== src/Mirror/Ticker.antt =====
-- A small terminal that meets the laws of the vt100 interface, for the tests: each byte is shown
-- in place of the one before it, and scrolls a row with itself off the screen.
use g2mirror.Prelude.{
  ℕ, zero, suc, ◌+◌, ◌-◌, ◌<◌, ◌≡◌, refl, sym, ap, ◌∙◌, min, true, false, List, [], ◌∷◌, ◌++◌,
  Option, none, some, Bytes, unwrap_or, map, length, get_elem?, get_elem?_lt, ltb, if◌then◌else◌,
  arith,
}
use g2mirror.Screen.{Color, Cell, Row, Vt100}
use g2mirror.Screen.Laws.{newest, SizeLaws, StagingLaws, DiffLaws}

pub record Term : Type 0 where
  pub rows : ℕ
  pub cols : ℕ
  pub cap : ℕ
  pub staged : List Row
  pub offset : ℕ
  pub shown : ℕ

abbrev pub cell_of : ℕ → Cell
cell_of b = record {
  contents = b ∷ [];
  has_contents = true;
  is_wide_continuation = false;
  fgcolor = Color.default;
  bgcolor = Color.default;
  bold = false;
  dim = false;
  italic = false;
  underline = false;
  inverse = false;
}

abbrev pub row_of : ℕ → Row
row_of b = record { cell = λ i. if ltb i 1 then some (cell_of b) else none; wrapped = false }

abbrev pub scroll : Term → ℕ
scroll t = min t.offset (length t.staged)

abbrev pub last_of : ℕ → Bytes → ℕ
last_of b [] = b
last_of b (c ∷ cs) = last_of c cs

abbrev pub fill : ℕ → List Bytes
fill zero = []
fill (suc n) = [] ∷ fill n

abbrev pub ticker : Vt100
ticker = record {
  Term = Term;
  new = λ rows cols n. record {
    rows = rows;
    cols = cols;
    cap = n;
    staged = [];
    offset = 0;
    shown = 0;
  };
  process = λ t bytes. record t {
    staged = newest t.cap (t.staged ++ map row_of bytes);
    offset = if ltb 0 (scroll t) then scroll t + length bytes else 0;
    shown = last_of t.shown bytes;
  };
  events = λ t bytes. [];
  size = λ t. (t.rows, t.cols);
  set_size = λ rows cols t. record t { rows = rows; cols = cols };
  scrollback = scroll;
  set_scrollback = λ n t. record t { offset = n };
  alternate_screen = λ t. false;
  row = λ t i. unwrap_or (get_elem? t.staged (length t.staged - scroll t + i)) (row_of t.shown);
  cursor_position = λ t. (0, 0);
  hide_cursor = λ t. true;
  rows_diff = λ t prev start width. fill t.rows;
  input_mode_formatted = λ t. [];
  input_mode_diff = λ t prev. [];
  state_diff = λ t prev. t.shown ∷ [];
}

length-fill : (n : ℕ) → length (fill n) ≡ n
length-fill zero = refl
length-fill (suc n) = ap suc (length-fill n)

pub ticker_sizes : SizeLaws ticker
ticker_sizes = record {
  size-new = λ rows cols n. refl;
  size-process = λ t bytes. refl;
  size-set = λ n t. refl;
  size-set_size = λ r c t. refl;
  length-rows_diff = λ t p a n alike. length-fill t.rows;
}

some-unwrap : {A : Type 0} (o : Option A) (d : A) {a : A} → o ≡ some a → o ≡ some (unwrap_or o d)
some-unwrap none d e = absurd cc
some-unwrap (some a) d e = refl

length-rows : (bytes : Bytes) → length (map row_of bytes) ≡ length bytes
length-rows [] = refl
length-rows (b ∷ bytes) = ap suc (length-rows bytes)

pub last-append : (s : ℕ) (a b : Bytes) → last_of (last_of s a) b ≡ last_of s (a ++ b)
last-append s [] b = refl
last-append s (c ∷ a) b = last-append c a b

pub row-staged :
    (t : Term) (i : ℕ)
    → i < scroll t
    → get_elem? t.staged (length t.staged - scroll t + i)
      ≡ some (unwrap_or (get_elem? t.staged (length t.staged - scroll t + i)) (row_of t.shown))
row-staged t i lt =
    let (r, e) = get_elem?_lt t.staged (length t.staged - scroll t + i) (omega arith) in
    some-unwrap _ (row_of t.shown) e

pub follows :
    (t : Term) (bytes : Bytes)
    → 0 < scroll t
    → scroll (ticker.process t bytes)
      ≡ min (scroll t + length (map row_of bytes)) (length (ticker.process t bytes).staged)
follows t bytes p = ground (arith, length-rows bytes)

-- `abbrev`, so that its scrolled rows compute.
abbrev pub ticker_staging : StagingLaws ticker
ticker_staging = record {
  staged_rows = λ t. t.staged;
  staged_rows-set = λ n t. refl;
  alternate-set = λ n t. refl;
  scrollback-set = λ n t a. refl;
  row_staged = λ t i a lt fits. row-staged t i lt;
  Quiet = λ t bytes. Unit;
  scrolled = λ t bytes. map row_of bytes;
  capacity = λ t. t.cap;
  capacity-new = λ rows cols n. refl;
  capacity-set = λ n t. refl;
  capacity-process = λ t bytes. refl;
  alternate-process = λ t bytes q. refl;
  staged_rows-process = λ t bytes q. refl;
  scrollback-follows = λ t bytes q p. follows t bytes p;
}

pub flat : (t : Term) (bytes : Bytes) → scroll t ≡ 0 → scroll (ticker.process t bytes) ≡ 0
flat t bytes e = ground arith

pub never : (t : Term) → false ≡ true → scroll t ≡ 0
never t e = absurd cc

abbrev pub ticker_diffs : DiffLaws ticker
ticker_diffs = record {
  Same = λ s t. s.shown ≡ t.shown;
  Looks = λ d t. d.shown ≡ t.shown;
  same_refl = λ t. refl;
  same_sym = λ s t h. sym h;
  same_trans = λ s t u h k. h ∙ k;
  same-new = λ rows cols n k. refl;
  same-process = λ s t bytes h. ap (λ b. last_of b bytes) h;
  same-set = λ n t. refl;
  process-nil = λ t. refl;
  process-append = λ t a b. last-append t.shown a b;
  looks-same = λ d s t h k. h ∙ k;
  scrollback-new = λ rows cols n. omega arith;
  scrollback-process = λ t bytes e. flat t bytes e;
  scrollback-set_zero = λ t. omega arith;
  scrollback-alternate = λ t e. never t e;
  looks-state_diff = λ d t prev e f g h. refl;
}
