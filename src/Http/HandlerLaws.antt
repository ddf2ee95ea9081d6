-- ===== src/Http/HandlerLaws.antt =====
-- What the handlers answer: the plaintext and its signature, and polls of what was submitted.
use teecryptor.Handle.{Handle}
use teecryptor.Http.Response.{Response}
use teecryptor.Http.Polls.{}
