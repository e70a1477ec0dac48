-- ===== src/WaitingRoom/WaitPage/Template.antt =====
-- waitingroom/waitingroom.go: waitPageTemplate, cut at its two `%s`, with `%%` printed as `%`.
use Prim.Native.String.{String}
use peakshield.Prelude.{List, [], ◌∷◌, ◌++◌}
use peakshield.Prelude.Bytes.{Bytes, bytes}

joined : List String → Bytes
joined [] = []
joined (s ∷ rest) = bytes s ++ joined rest

unfoldable pub page_head : Bytes
unfolding joined
page_head = joined (
    "<!DOCTYPE html><html lang=\"en\"><head><meta charset=\"UTF-8\"><meta http-equiv="
    ∷ "\"refresh\" content=\"5\"><meta name=\"viewport\" content=\"width=device-width,init"
    ∷ "ial-scale=1\"><title>Please Wait — High Traffic</title><style>*{box-sizing:bo"
    ∷ "rder-box;margin:0;padding:0}body{font-family:system-ui,-apple-system,sans-se"
    ∷ "rif;background:#0f172a;color:#e2e8f0;display:flex;align-items:center;justify"
    ∷ "-content:center;min-height:100vh;text-align:center;padding:1rem}.c{max-width"
    ∷ ":400px}.e{font-size:2.8rem;margin-bottom:.6rem}h1{font-size:1.15rem;font-wei"
    ∷ "ght:600;margin-bottom:1rem}.m{color:#94a3b8;font-size:.9rem;margin-bottom:.4"
    ∷ "rem}.d{color:#94a3b8;font-size:.82rem;margin-bottom:1.2rem}.dots{display:fle"
    ∷ "x;justify-content:center;gap:6px;margin-bottom:1.2rem}.dot{width:9px;height:"
    ∷ "9px;border-radius:50%;background:#38bdf8}@keyframes blink{0%,100%{opacity:.1"
    ∷ "5}50%{opacity:1}}.dot:nth-child(1){animation:blink 1.2s 0s infinite}.dot:nth"
    ∷ "-child(2){animation:blink 1.2s .4s infinite}.dot:nth-child(3){animation:blin"
    ∷ "k 1.2s .8s infinite}small{color:#475569;font-size:.73rem}</style></head><bod"
    ∷ "y><div class=\"c\"><div class=\"e\">⏳</div><h1>High Traffic — Please Wait</h1><p"
    ∷ " class=\"m\">" ∷ [])

unfoldable pub page_middle : Bytes
unfolding joined
page_middle = joined ("</p><p class=\"d\">" ∷ [])

unfoldable pub page_tail : Bytes
unfolding joined
page_tail = joined (
    "</p><div class=\"dots\"><div class=\"dot\"></div><div class=\"dot\"></div><div cla"
    ∷ "ss=\"dot\"></div></div><small>Auto-refreshes every 5 seconds. Please do not pr"
    ∷ "ess F5 or reload.</small></div></body></html>" ∷ [])
