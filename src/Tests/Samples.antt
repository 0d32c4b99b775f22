-- ===== src/Tests/Samples.antt =====
-- Concrete stand-ins for what the program takes from outside, and the data of the tests.
use lan_file_share.Common.{
  ◌≡◌, ◌≢◌, ◌≤◌, ◌<◌, refl, ℕ, zero, suc, true, false, String, Option, none, some, List, [], ◌∷◌,
  ◌++◌, arith, length, take, drop, ◌*◌, ◌/◌, sym, take-append-drop,
}
use lan_file_share.Common.Int.{ℤ, pos, pos_part, ltb_ℤ, ◌*ℤ◌}
use lan_file_share.Common.Text.{codes}
use lan_file_share.Errors.{Error, message, ok}
use lan_file_share.FileNode.{FileNode, NodeInfo, node, no_children, child}
use lan_file_share.Chunker.{ReadError, end_of_file, FileSystem}
use lan_file_share.Retry.Policy.{RetryPolicy, default_retry_policy}
use lan_file_share.Session.{Float64}

-- Numbers without a fraction.
abbrev pub whole : Float64
whole = record {
  Float = ℤ;
  of_int = λ n. n;
  div = λ a b. pos (pos_part a / pos_part b);
  mul = λ a b. a *ℤ b;
  is_positive = λ a. ltb_ℤ (pos 0) a;
  truncate = λ a. a;
  seconds = λ d. d;
}

pub take-drop : (n : ℕ) (f : List ℕ) → f ≡ take n f ++ drop n f
take-drop n f = sym (take-append-drop n f)

pub length-take_le : (n : ℕ) (f : List ℕ) → length (take n f) ≤ n
length-take_le zero f = omega arith
length-take_le (suc n) [] = omega arith
length-take_le (suc n) (x ∷ f) = omega (arith, length-take_le n f)

abbrev pub end_error : List ℕ → Option ReadError
end_error [] = some end_of_file
end_error (x ∷ f) = none

pub take_progress : (f : List ℕ) (n : ℕ) → 0 < n → end_error f ≡ none → take n f ≢ []
take_progress [] n h e = cc
take_progress (x ∷ f) zero h e = ground arith
take_progress (x ∷ f) (suc n) h e = cc

-- A read gives two bytes at most.
abbrev pub short_read : ℕ → ℕ
short_read zero = 0
short_read (suc zero) = 1
short_read (suc (suc n)) = 2

pub short_read-le : (n : ℕ) → short_read n ≤ n
short_read-le zero = omega arith
short_read-le (suc zero) = omega arith
short_read-le (suc (suc n)) = omega arith

pub short_read-pos : (n : ℕ) → 0 < n → 0 < short_read n
short_read-pos zero h = h
short_read-pos (suc zero) h = omega arith
short_read-pos (suc (suc n)) h = omega arith

abbrev pub contents : List ℕ
contents = 10 ∷ 20 ∷ 30 ∷ []

-- Every file has the same three bytes; a file that is open is what is left of it.
abbrev pub memory : FileSystem
memory = record {
  File = List ℕ;
  open_file = λ path. ok contents;
  unread = λ f. f;
  read = λ f n. record {
    file = drop (short_read n) f;
    bytes = take (short_read n) f;
    error = end_error f;
  };
  hash = λ bytes. "00";
  read-unread = λ f n. take-drop (short_read n) f;
  read-le = λ f n. omega (arith, length-take_le (short_read n) f, short_read-le n);
  read-progress = λ f n h. take_progress f (short_read n) (short_read-pos n h);
}

pub memory_healthy : (f : List ℕ) (n : ℕ) → 0 < n → f ≢ [] → (memory.read f n).error ≡ none
memory_healthy [] n h k = ground arith
memory_healthy (x ∷ f) n h k = refl

abbrev pub file_info : String → ℕ → NodeInfo
file_info p n = record {
  name = p;
  is_dir = false;
  size = pos n;
  mime_type = "text/plain";
  checksum = "00";
  path = p;
}

abbrev pub file_a : FileNode
file_a = node (file_info "a" 3) no_children

abbrev pub file_b : FileNode
file_b = node (file_info "b" 3) no_children

abbrev pub folder : FileNode
folder = node (record (file_info "d" 0) { is_dir = true }) (child file_a (child file_b no_children))

abbrev pub doubling : ℤ → ℤ
doubling d = pos (pos_part d * 2)

abbrev pub policy : RetryPolicy
policy = default_retry_policy doubling

abbrev pub refused : Error
refused = message (codes "connection refused")
