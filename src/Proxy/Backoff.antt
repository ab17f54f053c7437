-- ===== src/Proxy/Backoff.antt =====
-- src/internal/proxy/server.go: `nextBackoff`, the delays of the accept loop, in nanoseconds.
use pg_k8s_proxy.Common.{ℕ, zero, suc, ◌*◌, ◌^◌, ◌≡◌, refl, ◌∙◌, ltb, ◌==◌, if◌then◌else◌, arith}

abbrev pub min_backoff : ℕ
min_backoff = 5000000

abbrev pub max_backoff : ℕ
max_backoff = 1000000000

unfoldable pub next_backoff : ℕ → ℕ
next_backoff current =
    if current == 0
    then min_backoff
    else if ltb (current * 2) max_backoff
    then current * 2
    else max_backoff

-- The delay before the retry after `n` failures and one more in a row; an accept resets it to 0.
unfoldable pub backoff_after : ℕ → ℕ
unfolding next_backoff
backoff_after zero = next_backoff 0
backoff_after (suc n) = next_backoff (backoff_after n)

next_saturated : (n : ℕ) → backoff_after n ≡ max_backoff → backoff_after (suc n) ≡ max_backoff
unfolding backoff_after
next_saturated n h = rw h

saturated : (n : ℕ) → backoff_after (suc (suc (suc (suc (suc (suc (suc (suc n)))))))) ≡ max_backoff
saturated zero = unfold backoff_after in refl
saturated (suc n) = next_saturated (suc (suc (suc (suc (suc (suc (suc (suc n)))))))) (saturated n)

-- A row of failures waits 5 ms, doubled each time, and one second from the ninth on.
pub backoff_after_lem :
    (n : ℕ) → backoff_after n ≡ (if ltb n 8 then min_backoff * 2 ^ n else max_backoff)
backoff_after_lem zero = unfold backoff_after in refl
backoff_after_lem (suc zero) = unfold backoff_after in refl
backoff_after_lem (suc (suc zero)) = unfold backoff_after in refl
backoff_after_lem (suc (suc (suc zero))) = unfold backoff_after in refl
backoff_after_lem (suc (suc (suc (suc zero)))) = unfold backoff_after in refl
backoff_after_lem (suc (suc (suc (suc (suc zero))))) = unfold backoff_after in refl
backoff_after_lem (suc (suc (suc (suc (suc (suc zero)))))) = unfold backoff_after in refl
backoff_after_lem (suc (suc (suc (suc (suc (suc (suc zero))))))) = unfold backoff_after in refl
backoff_after_lem (suc (suc (suc (suc (suc (suc (suc (suc n)))))))) = saturated n ∙ ground arith
