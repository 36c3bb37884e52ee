-- ===== src/Retry/Throttle.antt =====
-- app/retry/classifier.py: which limiter a 429 came from, read off the upstream's message.
use zk_ai.Prelude.{
  ℕ, ◌+◌, String, ◌≡◌, refl, Bool, true, false, not, ◌&&◌, ◌||◌, List, [], ◌∷◌, ◌++◌, map, leb,
  ◌==◌, if◌then◌else◌, any_of,
}
use zk_ai.Prelude.Text.{codes, starts_with, contains}

pub data ThrottleKind : Type 0 where
  quota throughput frequency unknown : ThrottleKind

-- `kind.value`
unfoldable pub kind_value : ThrottleKind → String
kind_value ThrottleKind.quota = "quota"
kind_value ThrottleKind.throughput = "throughput"
kind_value ThrottleKind.frequency = "frequency"
kind_value ThrottleKind.unknown = "unknown"

unfoldable pub quota_exhaustion_patterns : List String
quota_exhaustion_patterns =
    "entitlement exhausted" ∷ "quota exhausted" ∷ "quota exceeded" ∷ "out of quota"
    ∷ "insufficient balance" ∷ "insufficient credits" ∷ "余额不足" ∷ "额度已用尽" ∷ "额度用尽" ∷ "每日限额" ∷ []

-- `str.lower`, as far as the patterns can tell: besides A to Z, only U+212A (to `k`) and U+0130
-- (to `i` and U+0307) have a lower case with ASCII in it, and Han characters have none.
lower_char : ℕ → List ℕ
lower_char c =
    if leb b'A' c && leb c b'Z'
    then (c + 32) ∷ []
    else if c == 0x212a
    then b'k' ∷ []
    else if c == 0x130
    then b'i' ∷ 0x307 ∷ []
    else c ∷ []

lower : List ℕ → List ℕ
lower [] = []
lower (c ∷ cs) = lower_char c ++ lower cs

unfoldable pub looks_like_quota_exhaustion : String → Bool
unfolding contains lower lower_char quota_exhaustion_patterns
looks_like_quota_exhaustion message =
    any_of (λ pattern. contains (lower (codes pattern)) (lower (codes message)))
      quota_exhaustion_patterns

-- `re.IGNORECASE` compares characters by this folding.
fold_case : ℕ → ℕ
fold_case c =
    if leb b'A' c && leb c b'Z'
    then c + 32
    else if c == 0x212a
    then b'k'
    else if c == 0x130 || c == 0x131
    then b'i'
    else if c == 0x17f
    then b's'
    else c

-- An alternative of the expressions: a text, with or without `\b` on both sides.
pub data Alternative : Type 0 where
  plain word : String → Alternative

-- `_THROUGHPUT_RE`, its groups and optional letters written out.
unfoldable pub throughput_re : List Alternative
throughput_re =
    Alternative.word "tpm"
    ∷ Alternative.plain "token per minute"
    ∷ Alternative.plain "token per second"
    ∷ Alternative.plain "token per hour"
    ∷ Alternative.plain "tokens per minute"
    ∷ Alternative.plain "tokens per second"
    ∷ Alternative.plain "tokens per hour"
    ∷ Alternative.plain "throughput"
    ∷ Alternative.plain "token limit exceeded"
    ∷ []

-- `_FREQUENCY_RE`
unfoldable pub frequency_re : List Alternative
frequency_re =
    Alternative.word "rpm"
    ∷ Alternative.word "rps"
    ∷ Alternative.word "qps"
    ∷ Alternative.word "tps"
    ∷ Alternative.plain "request per minute"
    ∷ Alternative.plain "request per second"
    ∷ Alternative.plain "request per hour"
    ∷ Alternative.plain "requests per minute"
    ∷ Alternative.plain "requests per second"
    ∷ Alternative.plain "requests per hour"
    ∷ Alternative.plain "per minute"
    ∷ Alternative.plain "per second"
    ∷ Alternative.plain "too many requests"
    ∷ Alternative.plain "request rate"
    ∷ Alternative.plain "请求过于频繁"
    ∷ Alternative.plain "每分钟"
    ∷ Alternative.plain "每秒"
    ∷ Alternative.plain "频率超限"
    ∷ []

-- `\w`: ASCII letters, digits and `_`; beyond ASCII the Unicode database decides, `wide`.
module _ (wide : ℕ → Bool) where
  is_word : ℕ → Bool
  is_word c =
      if leb 128 c
      then wide c
      else leb b'a' c && leb c b'z'
        || leb b'A' c && leb c b'Z'
        || leb b'0' c && leb c b'9'
        || c == b'_'

  -- Is the next character outside a word?
  ends_word : List ℕ → Bool
  unfolding is_word
  ends_word [] = true
  ends_word (c ∷ cs) = not (is_word c)

  -- `\bPATTERN\b` at this place: the character before it is outside a word, and so is the one
  -- after it.
  word_here : Bool → List ℕ → List ℕ → Bool
  unfolding fold_case ends_word
  word_here before [] cs = not before && ends_word cs
  word_here before (p ∷ ps) [] = false
  word_here before (p ∷ ps) (c ∷ cs) = not before && p == fold_case c && word_here false ps cs

  alternative_here : Bool → List ℕ → Alternative → Bool
  unfolding starts_with fold_case word_here
  alternative_here before cs (Alternative.plain p) = starts_with (codes p) (map fold_case cs)
  alternative_here before cs (Alternative.word p) = word_here before (codes p) cs

  -- `re.search` from a place on; `before` says whether the character before it is in a word.
  search_from : Bool → List Alternative → List ℕ → Bool
  unfolding is_word alternative_here
  search_from before alternatives [] = false
  search_from before alternatives (c ∷ cs) =
      any_of (alternative_here before (c ∷ cs)) alternatives
      || search_from (is_word c) alternatives cs

  unfoldable pub classify_throttle : String → ThrottleKind
  unfolding search_from looks_like_quota_exhaustion throughput_re frequency_re
  classify_throttle message =
      if looks_like_quota_exhaustion message
      then ThrottleKind.quota
      else if search_from false throughput_re (codes message)
      then ThrottleKind.throughput
      else if search_from false frequency_re (codes message)
      then ThrottleKind.frequency
      else ThrottleKind.unknown

-- The combined message of SenseNova counts as throughput, the costlier one.
ambiguous_message :
    classify_throttle (λ c. true) "inference exceeds tpm/rpm limit" ≡ ThrottleKind.throughput
unfolding classify_throttle
ambiguous_message = refl

frequency_message : classify_throttle (λ c. true) "40 RPM exceeded" ≡ ThrottleKind.frequency
unfolding classify_throttle
frequency_message = refl

inside_word : classify_throttle (λ c. true) "xrpm" ≡ ThrottleKind.unknown
unfolding classify_throttle
inside_word = refl
