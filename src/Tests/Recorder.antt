-- ===== src/Tests/Recorder.antt =====
-- Recorded paths on concrete inputs.
use pikopod.Base.{arith, All}
use pikopod.Base.Bytes.{Bytes, codes, split, contains, cut}
use pikopod.Recorder.{sanitize_path}
use pikopod.Recorder.Paths.{
  path_of, pairs_in, SafeSegment, SafePair, CleanTokens, sanitize_path-Safe,
}

abbrev token : Bytes → Bytes
token raw = codes "tok"

token-CleanTokens : CleanTokens token
unfolding contains
token-CleanTokens raw c d = ground (arith, d)

abbrev path : Bytes
path = codes "/users/ann%40mail.test?api_key=k123456&page=two"

sanitize_path-Safe_example :
    All (SafeSegment token) (split b'/' (path_of (sanitize_path token path).0))
    × All (SafePair token) (pairs_in (cut b'?' (sanitize_path token path).0))
sanitize_path-Safe_example = sanitize_path-Safe token token-CleanTokens path
