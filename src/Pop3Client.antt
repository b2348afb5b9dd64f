-- ===== src/Pop3Client.antt =====
-- The Go package pop3client.
pub mod Wire
pub mod Commands
pub mod Login
pub mod Framing
pub mod AnswerEnds
pub mod StatTrip
pub mod Opens
pub mod Proxy
pub mod Email
pub mod NewMail
pub mod Sessions
pub mod MailCalls
pub mod NewMailLaws
pub mod NewMailFound
pub mod Message
pub mod Texts
pub mod Bodies
pub mod MailEnds
mod Tests
