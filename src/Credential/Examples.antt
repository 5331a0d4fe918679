-- ===== src/Credential/Examples.antt =====
-- The theorems about the credential resolver at concrete inputs.
use lhotse_agent.Prelude.{
  refl, [], ◌∷◌, In-cons, some, codes, lookup, insert, str_eq, inl, inr, arith,
}
use lhotse_agent.Remote.{good, bad}
use lhotse_agent.TtlCache.{ok}
use lhotse_agent.TtlCache
use lhotse_agent.Credential.{
  Credential, World, Request, call, fetch, fmt_key, resolve, resolves, to_answer,
}
use lhotse_agent.Credential.Answers.{AnswerOf, resolve-AnswerOf, NoColon}

abbrev secret : Credential
secret = record {
  header_name = codes "Authorization";
  header_prefix = codes "Bearer ";
  value = codes "s";
}

abbrev answering : World
answering = record {
  post = λ a h u. good (record { status = 200; payload = good (some secret) });
  checked_at = 1;
  stored_at = 2;
}

abbrev failing : World
failing = record { post = λ a h u. bad (codes "refused"); checked_at = 5; stored_at = 6 }

abbrev first : Request
first = record {
  world = answering;
  agent_id = codes "a";
  target_host = codes "h";
  user_id = codes "u";
}

abbrev second : Request
second = record first { world = failing }

-- The second call finds what the first one stored.
resolve-AnswerOf_example : AnswerOf (codes "http://vault") (first ∷ []) second (some secret)
unfolding resolve resolves TtlCache.resolve call fetch fmt_key to_answer lookup insert str_eq
resolve-AnswerOf_example =
    resolve-AnswerOf (codes "http://vault") (first ∷ []) second (some secret) refl refl

one_letter : NoColon (codes "a")
one_letter i = elim (In-cons i) [ inl e ↦ absurd (omega (arith, e)) | inr more ↦ elim more [ ] ]
