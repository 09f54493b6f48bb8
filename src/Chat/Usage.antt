-- ===== src/Chat/Usage.antt =====
-- The token counts of backend/core/model/usage.py that the nodes of a conversation carry. A count
-- is a natural number, and a key that is missing or `None` is `none`; `raw` is left out.
use chat_tree.Prelude.{ℕ, ◌+◌, ◌-◌, ◌≡◌, String, Option, none, some, arith}

pub record UsageInfo : Type 0 where
  pub input_tokens : Option ℕ
  pub output_tokens : Option ℕ
  pub total_tokens : Option ℕ
  pub cached_tokens : Option ℕ
  pub reasoning_tokens : Option ℕ
  pub cache_creation_input_tokens : Option ℕ
  pub cache_read_input_tokens : Option ℕ
  pub source : Option String

-- `_int_value`, on a count or `None`
unfoldable pub int_value : Option ℕ → ℕ → ℕ
int_value none default = default
int_value (some n) default = n

-- `max(total - output, 0)` is the truncated difference.
unfoldable pub estimated_usage : ℕ → Option ℕ → UsageInfo
unfolding int_value
estimated_usage total_tokens output_tokens =
    let output = int_value output_tokens total_tokens in
    record {
      input_tokens = some (total_tokens - output);
      output_tokens = some output;
      total_tokens = some total_tokens;
      cached_tokens = none;
      reasoning_tokens = none;
      cache_creation_input_tokens = none;
      cache_read_input_tokens = none;
      source = some "estimate";
    }

-- A usage that is `None` is `none`; a `UsageInfo` with no key at all is read as absent by the code,
-- and has the same total as `none`.
unfoldable pub usage_total : Option UsageInfo → ℕ → ℕ
unfolding int_value
usage_total none fallback = fallback
usage_total (some usage) fallback = int_value usage.total_tokens fallback

abbrev pub add_count : (UsageInfo → Option ℕ) → UsageInfo → Option UsageInfo → Option ℕ
add_count key result none = key result
add_count key result (some usage) = some (int_value (key result) 0 + int_value (key usage) 0)

-- One round of the loop of `add_usage`.
unfoldable pub accumulate_usage : UsageInfo → Option UsageInfo → UsageInfo
unfolding int_value
accumulate_usage result usage = record {
  input_tokens = add_count (λ u. u.input_tokens) result usage;
  output_tokens = add_count (λ u. u.output_tokens) result usage;
  total_tokens = add_count (λ u. u.total_tokens) result usage;
  cached_tokens = add_count (λ u. u.cached_tokens) result usage;
  reasoning_tokens = add_count (λ u. u.reasoning_tokens) result usage;
  cache_creation_input_tokens = add_count (λ u. u.cache_creation_input_tokens) result usage;
  cache_read_input_tokens = add_count (λ u. u.cache_read_input_tokens) result usage;
  source = result.source;
}

abbrev pub no_usage : UsageInfo
no_usage = record {
  input_tokens = some 0;
  output_tokens = some 0;
  total_tokens = some 0;
  cached_tokens = some 0;
  reasoning_tokens = some 0;
  cache_creation_input_tokens = some 0;
  cache_read_input_tokens = some 0;
  source = some "aggregate";
}

unfoldable pub add_usage : Option UsageInfo → Option UsageInfo → UsageInfo
unfolding accumulate_usage
add_usage left right = accumulate_usage (accumulate_usage no_usage left) right

-- The total of an aggregate is the sum of the totals.
pub usage_total-add_usage :
    (a b : Option UsageInfo)
    → usage_total (some (add_usage a b)) 0 ≡ usage_total a 0 + usage_total b 0
unfolding usage_total add_usage
usage_total-add_usage a b = ground arith

pub add_usage_comm : (a b : Option UsageInfo) → add_usage a b ≡ add_usage b a
unfolding add_usage
add_usage_comm a b = ground arith
